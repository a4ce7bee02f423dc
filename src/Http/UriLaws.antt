-- ===== src/Http/UriLaws.antt =====
-- evhttp_decode_uri_internal of http.c on what evhttp_uriencode writes.
use mathlib.Core.List.{append_assoc, append-nil}
use libevent_linux.Prelude.{
  ℕ, zero, suc, ◌+◌, ◌*◌, ◌/◌, ◌%◌, ◌-◌, ◌^◌, ◌≤◌, ◌<◌, ◌≡◌, refl, sym, ap, ◌∙◌, Bool, true, false,
  ◌&&◌, ◌||◌, Option, none, some, [], ◌∷◌, ◌++◌, length, length-append, ltb, take, ◌==◌, if_elim,
  if_true, if_false, arith,
}
use libevent_linux.Http.Uri.{
  Text, char_is_unreserved, hex_digit, encode_char, encode_loop, c_string, evhttp_uriencode,
  DecodePlus, is_all, isxdigit, hex_value, plain, decode_loop, evhttp_decode_uri_internal,
}

abbrev pub IsBytes : Text → Type 0
IsBytes [] = Unit {0}
IsBytes (c ∷ s) = (c < 256) × IsBytes s

encode_loop-append : (p : Bool) (s buf : Text) → encode_loop p s buf ≡ buf ++ encode_loop p s []
encode_loop-append p [] buf = sym (append-nil buf)
encode_loop-append p (c ∷ s) buf =
    encode_loop-append p s (buf ++ encode_char p c)
    ∙ append_assoc buf (encode_char p c) (encode_loop p s [])
    ∙ ap (◌++◌ buf) (sym (encode_loop-append p s (encode_char p c)))

module _ (ctl : DecodePlus) (plus : Bool) where
  decode-plain :
      (c : ℕ) (s : Text)
      → (c == 37) ≡ false
      → plain ctl plus c ≡ (c, plus)
      → decode_loop ctl plus (c ∷ s) ≡ c ∷ decode_loop ctl plus s
  decode-plain c [] out e = ap (λ (r : ℕ × Bool). r.0 ∷ []) e
  decode-plain c (a ∷ []) out e = ap (λ (r : ℕ × Bool). r.0 ∷ decode_loop ctl r.1 (a ∷ [])) e
  decode-plain c (a ∷ b ∷ s) out e =
      if_false (c == 37 && isxdigit a && isxdigit b) _ _ (ground arith)
      ∙ ap (λ (r : ℕ × Bool). r.0 ∷ decode_loop ctl r.1 (a ∷ b ∷ s)) e

  decode-escape :
      (a b : ℕ) (s : Text)
      → isxdigit a ≡ true
      → isxdigit b ≡ true
      → decode_loop ctl plus (37 ∷ a ∷ b ∷ s)
        ≡ (hex_value a * 16 + hex_value b) ∷ decode_loop ctl plus s
  decode-escape a b s ha hb = if_true (37 == 37 && isxdigit a && isxdigit b) _ _ (ground arith)

  decode-space :
      (s : Text) → plus ≡ true → decode_loop ctl plus (43 ∷ s) ≡ 32 ∷ decode_loop ctl plus s
  decode-space [] e = rw e refl
  decode-space (a ∷ []) e = rw e refl
  decode-space (a ∷ b ∷ s) e = rw e refl

hex-digit : (n : ℕ) → n < 16 → (isxdigit (hex_digit n) ≡ true) × (hex_value (hex_digit n) ≡ n)
hex-digit n h = (ground arith, ground arith)

decode-encode_char :
    (ctl : DecodePlus) (plus p : Bool) (c : ℕ) (s : Text)
    → c < 256
    → (p ≡ true → plus ≡ true)
    → decode_loop ctl plus (encode_char p c ++ s) ≡ c ∷ decode_loop ctl plus s
unfolding encode_char
decode-encode_char ctl plus p c s h same =
    let P = λ (t : Text). decode_loop ctl plus (t ++ s) ≡ c ∷ decode_loop ctl plus s in
    let (x, hi) = hex-digit (c / 16) (omega arith) in
    let (y, lo) = hex-digit (c % 16) (omega arith) in
    if_elim P (char_is_unreserved c)
      (λ u.
        decode-plain ctl plus c s (ground arith)
          (if_false (c == 63) _ _ (ground arith) ∙ if_false (c == 43 && plus) _ _ (ground arith)))
      (λ _.
        if_elim P (c == 32 && p)
          (λ e.
            let c' : 32 ≡ c = ground arith in
            let p' : p ≡ true = ground arith in
            decode-space ctl plus s (same p') ∙ ap (λ n. n ∷ decode_loop ctl plus s) c')
          (λ _.
            decode-escape ctl plus (hex_digit (c / 16)) (hex_digit (c % 16)) s x y
            ∙ ap (λ n. n ∷ decode_loop ctl plus s) (omega (arith, hi, lo))))

decode-encode_loop :
    (ctl : DecodePlus) (plus p : Bool) (s : Text)
    → IsBytes s
    → (p ≡ true → plus ≡ true)
    → decode_loop ctl plus (encode_loop p s []) ≡ s
decode-encode_loop ctl plus p [] v same = refl
decode-encode_loop ctl plus p (c ∷ s) v same =
    ap (decode_loop ctl plus) (encode_loop-append p s (encode_char p c))
    ∙ decode-encode_char ctl plus p c (encode_loop p s []) v.0 same
    ∙ ap (◌∷◌ c) (decode-encode_loop ctl plus p s v.1 same)

IsBytes-c_string : (s : Text) → IsBytes s → IsBytes (c_string s)
IsBytes-c_string [] v = v
IsBytes-c_string (c ∷ s) v = if_elim IsBytes (c == 0) (λ _. tt) (λ _. (v.0, IsBytes-c_string s v.1))

IsBytes-take : (n : ℕ) (s : Text) → IsBytes s → IsBytes (take n s)
IsBytes-take zero s v = tt
IsBytes-take (suc n) [] v = v
IsBytes-take (suc n) (c ∷ s) v = (v.0, IsBytes-take n s v.1)

-- What evhttp_uriencode is to encode: the bytes before the NUL, or as many as `len` says.
abbrev pub input : Text → Option ℕ → Text
input uri none = c_string uri
input uri (some len) = take len uri

encode_char-small : (p : Bool) (c : ℕ) → length (encode_char p c) ≤ 3
unfolding encode_char
encode_char-small p c =
    let P = λ (t : Text). length t ≤ 3 in
    if_elim P (char_is_unreserved c) (λ _. omega arith)
      (λ _. if_elim P (c == 32 && p) (λ _. omega arith) (λ _. omega arith))

length-encode_loop :
    (p : Bool) (s buf : Text) → length (encode_loop p s buf) ≤ length buf + length s * 3
length-encode_loop p [] buf = omega arith
length-encode_loop p (c ∷ s) buf = omega (
  arith,
  length-encode_loop p s (buf ++ encode_char p c),
  length-append buf (encode_char p c),
  encode_char-small p c,
)

decode-encoded :
    (ctl : DecodePlus) (p : Bool) (s : Text)
    → IsBytes s
    → (p ≡ true → is_all ctl ≡ true)
    → length s * 3 ≤ 2 ^ 32 - 2
    → evhttp_decode_uri_internal (encode_loop p s []) ctl ≡ some s
unfolding evhttp_decode_uri_internal
decode-encoded ctl p s v same short =
    let back = decode-encode_loop ctl (is_all ctl) p s v same in
    let fits : (ltb (2 ^ 32 - 2) (length (encode_loop p s []))
          || ltb (2 ^ 31 - 1) (length (decode_loop ctl (is_all ctl) (encode_loop p s []))))
        ≡ false =
      ground (arith, length-encode_loop p s [], ap (λ xs. length xs) back, short) in
    if_false _ _ _ fits ∙ ap some back

-- evhttp_decode_uri_internal gives back the bytes that evhttp_uriencode was to encode: those before
-- the NUL, or as many as its argument `len` says, if there are so few that three times their number
-- is less than UINT_MAX. If spaces were written as +, all + are to be read as spaces; if not, any
-- of the three ways to read + will do.
pub decode-uriencode :
    (uri : Text) (len : Option ℕ) (space_as_plus : Bool) (ctl : DecodePlus)
    → IsBytes uri
    → (space_as_plus ≡ true → is_all ctl ≡ true)
    → length (input uri len) * 3 ≤ 2 ^ 32 - 2
    → evhttp_decode_uri_internal (evhttp_uriencode uri len space_as_plus) ctl ≡ some (input uri len)
unfolding evhttp_uriencode
decode-uriencode uri none p ctl v same short =
    decode-encoded ctl p (c_string uri) (IsBytes-c_string uri v) same short
decode-uriencode uri (some n) p ctl v same short =
    decode-encoded ctl p (take n uri) (IsBytes-take n uri v) same short
