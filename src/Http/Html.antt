-- ===== src/Http/Html.antt =====
-- evhttp_htmlescape of http.c. A string is the list of its bytes before the NUL.
use mathlib.Core.List.{append_assoc, append-nil}
use mathlib.Core.Path.{subst}
use libevent_linux.Prelude.{
  ℕ, ◌+◌, ◌-◌, ◌*◌, ◌^◌, ◌≤◌, ◌<◌, ◌≡◌, refl, sym, ap, ◌∙◌, Bool, true, false, not, ◌||◌, Option,
  none, some, [], ◌∷◌, ◌++◌, length, length-append, ltb, ◌==◌, if◌then◌else◌, if_elim, if_false,
  arith,
}
use libevent_linux.Http.Uri.{Text}

-- The bytes that html_replace gives for one: &lt; &gt; &quot; &#039; &amp; or the byte itself.
abbrev pub html_replace : ℕ → Text
html_replace ch =
    if ch == 60
    then 38 ∷ 108 ∷ 116 ∷ 59 ∷ []
    else if ch == 62
    then 38 ∷ 103 ∷ 116 ∷ 59 ∷ []
    else if ch == 34
    then 38 ∷ 113 ∷ 117 ∷ 111 ∷ 116 ∷ 59 ∷ []
    else if ch == 39
    then 38 ∷ 35 ∷ 48 ∷ 51 ∷ 57 ∷ 59 ∷ []
    else if ch == 38
    then 38 ∷ 97 ∷ 109 ∷ 112 ∷ 59 ∷ []
    else ch ∷ []

-- The first loop: the number of bytes, `none` if it exceeds EV_SIZE_MAX.
abbrev pub size_loop : Text → ℕ → Option ℕ
size_loop [] new_size = some new_size
size_loop (c ∷ html) new_size =
    let replace_size = length (html_replace c) in
    let rest = size_loop html (new_size + replace_size) in
    if ltb (2 ^ 64 - 1 - new_size) replace_size then none else rest

-- The second loop: what is written from the start of the new memory on.
abbrev pub write_loop : Text → Text → Text
write_loop [] written = written
write_loop (c ∷ html) written = write_loop html (written ++ html_replace c)

-- The number of bytes of the memory, and what is written to it, with the NUL. `memory` is the
-- answer of mm_malloc.
unfoldable pub evhttp_htmlescape : Text → Bool → Option (ℕ × Text)
evhttp_htmlescape html memory = elim (size_loop html 0) [
  | none ↦ none
  | some new_size ↦
      if new_size == 2 ^ 64 - 1 || not memory
      then none
      else some (new_size + 1, write_loop html [] ++ 0 ∷ [])
]

-- A text and its escape, as the documentation describes it, independently of html_replace: the five
-- special characters by their entities, and all others as they are.
pub data Escapes : Text → Text → Type 0 where
  nothing : Escapes [] []
  less : (s t : Text) → Escapes s t → Escapes (60 ∷ s) (38 ∷ 108 ∷ 116 ∷ 59 ∷ t)
  greater : (s t : Text) → Escapes s t → Escapes (62 ∷ s) (38 ∷ 103 ∷ 116 ∷ 59 ∷ t)
  quote : (s t : Text) → Escapes s t → Escapes (34 ∷ s) (38 ∷ 113 ∷ 117 ∷ 111 ∷ 116 ∷ 59 ∷ t)
  apostrophe : (s t : Text) → Escapes s t → Escapes (39 ∷ s) (38 ∷ 35 ∷ 48 ∷ 51 ∷ 57 ∷ 59 ∷ t)
  ampersand : (s t : Text) → Escapes s t → Escapes (38 ∷ s) (38 ∷ 97 ∷ 109 ∷ 112 ∷ 59 ∷ t)
  plain :
      (c : ℕ) (s t : Text)
      → (c == 60 || c == 62 || c == 34 || c == 39 || c == 38) ≡ false
      → Escapes s t
      → Escapes (c ∷ s) (c ∷ t)

-- The escaped text without the loops.
abbrev escaped : Text → Text
escaped [] = []
escaped (c ∷ html) = html_replace c ++ escaped html

-- No < and >, and no quotes.
abbrev pub IsSafe : Text → Type 0
IsSafe [] = Unit {0}
IsSafe (c ∷ s) = ((c == 60 || c == 62 || c == 34 || c == 39) ≡ false) × IsSafe s

write_loop-escaped : (html written : Text) → write_loop html written ≡ written ++ escaped html
write_loop-escaped [] written = sym (append-nil written)
write_loop-escaped (c ∷ html) written =
    write_loop-escaped html (written ++ html_replace c)
    ∙ append_assoc written (html_replace c) (escaped html)

html_replace-small : (c : ℕ) → length (html_replace c) ≤ 6
html_replace-small c = ground arith

size_loop-escaped :
    (html : Text) (n : ℕ)
    → n + length html * 6 < 2 ^ 64
    → size_loop html n ≡ some (n + length (escaped html))
size_loop-escaped [] n h = ap some (omega arith)
size_loop-escaped (c ∷ html) n h =
    let k = length (html_replace c) in
    let small = html_replace-small c in
    let total = length-append (html_replace c) (escaped html) in
    if_false (ltb (2 ^ 64 - 1 - n) k) _ _ (ground (arith, small))
    ∙ size_loop-escaped html (n + k) (omega (arith, small, h))
    ∙ ap some (omega (arith, total))

IsSafe-append : (s t : Text) → IsSafe s → IsSafe t → IsSafe (s ++ t)
IsSafe-append [] t v w = w
IsSafe-append (c ∷ s) t v w = (v.0, IsSafe-append s t v.1 w)

html_replace-IsSafe : (c : ℕ) → IsSafe (html_replace c)
html_replace-IsSafe c =
    if_elim IsSafe (c == 60) (λ _. (refl, (refl, (refl, (refl, tt)))))
      (λ a.
        if_elim IsSafe (c == 62) (λ _. (refl, (refl, (refl, (refl, tt)))))
          (λ b.
            if_elim IsSafe (c == 34) (λ _. (refl, (refl, (refl, (refl, (refl, (refl, tt)))))))
              (λ d.
                if_elim IsSafe (c == 39) (λ _. (refl, (refl, (refl, (refl, (refl, (refl, tt)))))))
                  (λ e.
                    if_elim IsSafe (c == 38) (λ _. (refl, (refl, (refl, (refl, (refl, tt))))))
                      (λ _. (ground arith, tt))))))

escaped-IsSafe : (html : Text) → IsSafe (escaped html)
escaped-IsSafe [] = tt
escaped-IsSafe (c ∷ html) =
    IsSafe-append (html_replace c) (escaped html) (html_replace-IsSafe c) (escaped-IsSafe html)

length-escaped : (html : Text) → length (escaped html) ≤ length html * 6
length-escaped [] = omega arith
length-escaped (c ∷ html) = omega (
  arith,
  length-append (html_replace c) (escaped html),
  html_replace-small c,
  length-escaped html,
)

escaped-Escapes : (html : Text) → Escapes html (escaped html)
escaped-Escapes [] = nothing
escaped-Escapes (c ∷ s) =
    let t = escaped s in
    let inner = escaped-Escapes s in
    let P = λ (r : Text). Escapes (c ∷ s) (r ++ t) in
    let at = λ (k : ℕ) (same : k ≡ c) (is : Escapes (k ∷ s) (html_replace k ++ t)).
      subst (λ x. Escapes (x ∷ s) (html_replace k ++ t)) same is in
    if_elim P (c == 60) (λ e. at 60 (ground (arith, e)) (less s t inner))
      (λ a.
        if_elim P (c == 62) (λ e. at 62 (ground (arith, e)) (greater s t inner))
          (λ b.
            if_elim P (c == 34) (λ e. at 34 (ground (arith, e)) (quote s t inner))
              (λ d.
                if_elim P (c == 39) (λ e. at 39 (ground (arith, e)) (apostrophe s t inner))
                  (λ f.
                    if_elim P (c == 38) (λ e. at 38 (ground (arith, e)) (ampersand s t inner))
                      (λ g. plain c s t (ground (arith, a, b, d, f, g)) inner)))))

-- With memory, and for a text whose bytes times six are less than the largest size,
-- evhttp_htmlescape gives the escape of the text, in which each of <, >, ", ' and & is replaced by
-- its entity and all else is as it was, with a NUL behind it. No <, > or quote is left, and the
-- memory that it asks for is exactly what it writes, the NUL included.
pub htmlescape-escaped :
    (html : Text)
    → length html * 6 < 2 ^ 64 - 1
    → (t : Text) × (evhttp_htmlescape html true ≡ some (length t + 1, t ++ 0 ∷ []))
      × Escapes html t
      × IsSafe t
unfolding evhttp_htmlescape
htmlescape-escaped html h =
    let n = length (escaped html) in
    let size : size_loop html 0 ≡ some n =
      size_loop-escaped html 0 (omega arith) ∙ ap some (omega arith) in
    let small = length-escaped html in
    (
      escaped html,
      rw (evhttp_htmlescape, size)
          (if_false (n == 2 ^ 64 - 1 || not true) _ _ (ground (arith, small))
            ∙ ap (λ t. some (n + 1, t ++ 0 ∷ [])) (write_loop-escaped html [])),
      escaped-Escapes html,
      escaped-IsSafe html,
    )
