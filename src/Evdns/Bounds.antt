-- ===== src/Evdns/Bounds.antt =====
-- How far dnsname_to_labels of evdns.c writes.
use libevent_linux.Prelude.{
  ℕ, zero, suc, ◌+◌, ◌≤◌, ◌<◌, ◌≡◌, refl, sym, ap, ◌∙◌, ◌==◌, false, true, Bool, Bool-cases, Option,
  none, some, [], ◌∷◌, ◌++◌, length, ltb, if_elim, length-append, inl, inr, arith, Option-cases,
}
use mathlib.Core.Option.{some-injective, some-ne-none}
use libevent_linux.Evdns.Names.{Text}
use libevent_linux.Evdns.Labels.{
  Table, Labels, label_too_long, no_room, encoded, find, remember, split_dot, terminate,
  last_is_zero, append_pointer, labels_loop, dnsname_to_labels,
}

-- What is in the buffer after a call: not more than its bytes after an error, and one more at most
-- after a name.
abbrev pub Reaches : ℕ → Option Labels → Type 0
Reaches buf_len none = ⊥
Reaches buf_len (some (encoded packet table)) = length packet ≤ buf_len + 1
Reaches buf_len (some (label_too_long written table)) = length written ≤ buf_len
Reaches buf_len (some (no_room written table)) = length written ≤ buf_len

at_dot : (c : ℕ) (name : Text) → (c == 46) ≡ true → (split_dot (c ∷ name)).1 ≡ some name
at_dot c name dot = rw dot refl

not_at_dot :
    (c : ℕ) (name : Text) → (c == 46) ≡ false → (split_dot (c ∷ name)).1 ≡ (split_dot name).1
not_at_dot c name other = rw other refl

pointer-reach : (buf : Text) (ref : ℕ) → length (append_pointer buf ref) ≡ length buf + 2
pointer-reach buf ref = length-append buf (_ ∷ _ ∷ [])

-- The rest of a name, behind a dot, is shorter.
split_dot-shorter : (name rest : Text) → (split_dot name).1 ≡ some rest → length rest < length name
split_dot-shorter [] rest h = absurd (some-ne-none _ (sym h))
split_dot-shorter (c ∷ name) rest h = elim (Bool-cases (c == 46)) [
  | inl dot ↦
      let same = some-injective _ _ (sym (at_dot c name dot) ∙ h) in
      omega (arith, ap (λ xs. length xs) same)
  | inr other ↦ omega (arith, split_dot-shorter name rest (sym (not_at_dot c name other) ∙ h))
]

terminate-reach : (buf : Text) → length (terminate buf) ≤ length buf + 1
terminate-reach buf =
    if_elim (λ b. length b ≤ length buf + 1) (last_is_zero buf) (λ _. omega arith)
      (λ _. omega (arith, length-append buf (0 ∷ [])))

module _ (buf_len : ℕ) (memory : Bool) where
  labels_loop-Reaches :
      (fuel : ℕ) (buf name : Text) (table : Option Table)
      → length buf ≤ buf_len
      → length name < fuel
      → Reaches buf_len (labels_loop buf_len memory fuel buf name table)
  unfolding labels_loop
  labels_loop-Reaches zero buf name table room enough = omega arith
  labels_loop-Reaches (suc fuel) buf name table room enough =
      let P = Reaches buf_len in
      let l = (split_dot name).0 in
      let buf' = buf ++ length l ∷ l in
      let table' = remember table name (length buf) memory in
      let size = length-append buf (length l ∷ l) in
      elim (Option-cases (find table name)) [
        | inr (ref, found) ↦
            rw (found, labels_loop)
              (if_elim P (ltb buf_len (length buf + 2)) (λ _. room)
                (λ space. ground (arith, space, pointer-reach buf ref)))
        | inl new ↦
            rw (new, labels_loop)
              (if_elim P (ltb 63 (length l)) (λ _. room)
                (λ _.
                  if_elim P (ltb buf_len (length buf + length l + 1)) (λ _. room)
                    (λ space. elim (Option-cases (split_dot name).1) [
                      | inl last ↦ rw last (ground (arith, space, size, terminate-reach buf'))
                      | inr (rest, more) ↦ rw more (
                          labels_loop-Reaches fuel buf' rest table' (ground (arith, space, size))
                            (omega (arith, split_dot-shorter name rest more)))
                    ])))
      ]

-- Whatever the name and the table, dnsname_to_labels ends. A call that returns an error has written
-- nothing behind the end of its buffer, and one that succeeds at most one byte.
pub dnsname_to_labels-Reaches :
    (buf_len : ℕ) (memory : Bool) (buf name : Text) (table : Option Table)
    → length buf ≤ buf_len
    → Reaches buf_len (dnsname_to_labels buf_len memory buf name table)
unfolding dnsname_to_labels
dnsname_to_labels-Reaches buf_len memory buf name table room =
    if_elim (Reaches buf_len) (ltb 255 (length name)) (λ _. room)
      (λ _. labels_loop-Reaches buf_len memory (length name + 1) buf name table room (omega arith))
