-- ===== src/Evdns/ReadLaws.antt =====
-- name_parse of evdns.c on the names that RFC 1035 describes.
use libevent_linux.Prelude.{
  ℕ, zero, suc, ◌+◌, ◌*◌, ◌%◌, ◌≤◌, ◌<◌, ◌≡◌, refl, sym, ap, ◌∙◌, true, false, ◌&&◌, ◌||◌, Option,
  none, some, List, [], ◌∷◌, ◌++◌, length, take, drop, ltb, leb, ◌==◌, if_true, if_false,
  length-append, length-drop, take-append, arith,
}
use mathlib.Core.List.{append_assoc, append-nil}
use libevent_linux.Prelude.Slices.{drop-drop}
use libevent_linux.Evdns.Names.{
  Text, first, byte_at, dotted, end_or, dot_fails, label_fails, copy_label, name_loop, name_parse,
}
use libevent_linux.Evdns.Wire.{
  IsName, root, label, pointer, dots, join, IsName-within, IsName-length, IsName-first,
}

-- What the loop makes of a name and the labels that follow.
abbrev with_labels : Text → List Text → Text
with_labels name [] = name
with_labels name (l ∷ ls) = with_labels (dotted name ++ l) ls

with_labels-dots :
    (c : ℕ) (name : Text) (ls : List Text) → with_labels (c ∷ name) ls ≡ (c ∷ name) ++ dots ls
with_labels-dots c name [] = sym (append-nil (c ∷ name))
with_labels-dots c name (l ∷ ls) =
    with_labels-dots c ((name ++ 46 ∷ []) ++ l) ls
    ∙ ap (λ xs. (c ∷ xs) ++ dots ls) (append_assoc name (46 ∷ []) l)
    ∙ append_assoc (c ∷ name) (46 ∷ l) (dots ls)

with_labels-join :
    (l : Text) (ls : List Text) → 0 < length l → with_labels [] (l ∷ ls) ≡ join (l ∷ ls)
with_labels-join [] ls h = absurd (omega arith)
with_labels-join (c ∷ l) ls h = with_labels-dots c l ls

-- Labels only make the name longer.
with_labels-longer : (name : Text) (ls : List Text) → length name ≤ length (with_labels name ls)
with_labels-longer name [] = omega arith
with_labels-longer [] (l ∷ ls) = omega arith
with_labels-longer (c ∷ name) (l ∷ ls) = omega (
  arith,
  with_labels-longer (dotted (c ∷ name) ++ l) ls,
  length-append ((c ∷ name) ++ 46 ∷ []) l,
  length-append name (46 ∷ []),
)

-- What is at a position, and what follows.
byte_at-drop :
    (packet : Text) (pos c : ℕ) (rest : Text)
    → drop pos packet ≡ c ∷ rest
    → (byte_at packet pos ≡ some c) × (drop (pos + 1) packet ≡ rest)
byte_at-drop packet pos c rest at = (ap first at, sym (drop-drop 1 pos packet) ∙ ap (drop 1) at)

module _ (packet : Text) (name_out_len : ℕ) where
  dot-fits :
      (l name : Text)
      → length (dotted name ++ l) < name_out_len
      → (dot_fails packet name_out_len name ≡ false)
        × (ltb name_out_len (length (dotted name)) ≡ false)
  dot-fits l [] room = (refl, ground arith)
  dot-fits l (c ∷ name) room =
      let size = length-append ((c ∷ name) ++ 46 ∷ []) l in
      let dot = length-append name (46 ∷ []) in
      (ground (arith, size, dot), ground (arith, size, dot))

  label-copied :
      (j : ℕ) (l rest name : Text)
      → drop j packet ≡ l ++ rest
      → 0 < length l
      → length (dotted name ++ l) < name_out_len
      → copy_label packet name_out_len j (length l) name ≡ some (some (dotted name ++ l))
  label-copied j l rest name at some_bytes room =
      let size = ap (λ xs. length xs) at in
      let sum = length-append l rest in
      let left = length-drop j packet in
      let whole = length-append (dotted name) l in
      let (dot, dot_inside) = dot-fits l name room in
      let fits : label_fails packet name_out_len j (length l) (dotted name) ≡ false =
        ground (arith, size, sum, left, whole) in
      let inside : (leb (length (dotted name) + length l) name_out_len
            && leb (j + length l) (length packet))
          ≡ true =
        ground (arith, size, sum, left, whole) in
      let bytes : take (length l) (drop j packet) ≡ l =
        ap (take (length l)) at ∙ take-append l rest in
      if_false _ _ _ dot
      ∙ if_false _ _ _ dot_inside
      ∙ if_false _ _ _ fits
      ∙ rw inside (ap (λ xs. some (some (dotted name ++ xs))) bytes)

  name_loop-reads :
      (fuel pos : ℕ) (ls : List Text) (h next : ℕ) (name_end : Option ℕ) (ptr_count : ℕ)
      (name_out : Text)
      → IsName packet pos ls h next
      → ptr_count + h ≤ length packet
      → length ls + h < fuel
      → length (with_labels name_out ls) < name_out_len
      → name_loop packet name_out_len fuel pos name_end ptr_count name_out
        ≡ some (some (with_labels name_out ls, end_or name_end next))
  unfolding name_loop
  name_loop-reads zero _ _ _ _ name_end ptr_count name_out is hops enough room =
      absurd (omega arith)
  name_loop-reads (suc fuel) _ _ _ _ name_end ptr_count name_out (root pos rest at) hops enough
        room =
      let (here, after) = byte_at-drop packet pos 0 rest at in
      let fits : leb name_out_len (length name_out) ≡ false = ground arith in
      let written : leb (length name_out + 1) name_out_len ≡ true = ground arith in
      simp (name_loop, here, fits, written) refl
  name_loop-reads (suc fuel) _ _ _ _ name_end ptr_count name_out
        (label pos l rest ls h next at some_bytes short inner) hops enough room =
      let (here, after) = byte_at-drop packet pos (length l) (l ++ rest) at in
      let is_label : (length l == 0) ≡ false = ground arith in
      let no_pointer : leb 64 (length l) ≡ false = ground arith in
      let longer = with_labels-longer (dotted name_out ++ l) ls in
      let copied = label-copied (pos + 1) l rest name_out after some_bytes (omega arith) in
      rw (here, name_loop)
        (if_false _ _ _ is_label
          ∙ if_false _ _ _ no_pointer
          ∙ ap
              (λ (r : Option (Option Text)). elim r as (λ _. Option (Option (Text × ℕ))) [
                | none ↦ none
                | some none ↦ some none
                | some (some name') ↦
                    name_loop packet name_out_len fuel (pos + 1 + length l) name_end ptr_count name'
              ])
              copied
          ∙ name_loop-reads fuel (pos + 1 + length l) ls h next name_end ptr_count
              (dotted name_out ++ l) inner hops (omega arith) room)
  name_loop-reads (suc fuel) _ _ _ _ name_end ptr_count name_out
        (pointer pos high low rest ls h next at high_bits inner) hops enough room =
      let (here, after) = byte_at-drop packet pos high (low ∷ rest) at in
      let there = (byte_at-drop packet (pos + 1) low rest after).0 in
      let not_root : (high == 0) ≡ false = ground arith in
      let is_pointer : leb 64 high ≡ true = ground arith in
      let target = high % 64 * 256 + low in
      let inside = IsName-within packet target ls h next inner in
      let follows : (leb (length packet) target || ltb (length packet) (ptr_count + 1)) ≡ false =
        ground arith in
      rw (here, name_loop)
        (if_false _ _ _ not_root
          ∙ if_true _ _ _ is_pointer
          ∙ rw there (
              if_false _ _ _ follows
              ∙ name_loop-reads fuel target ls h next (some (end_or name_end (pos + 2)))
                  (ptr_count + 1) name_out inner (omega arith) (omega arith) room))

with_labels-name :
    (packet : Text) (pos : ℕ) (ls : List Text) (h next : ℕ)
    → IsName packet pos ls h next
    → with_labels [] ls ≡ join ls
with_labels-name packet pos [] h next is = refl
with_labels-name packet pos (l ∷ ls) h next is =
    with_labels-join l ls (IsName-first packet pos l ls h next is)

length-dots : (ls : List Text) → length (dots ls) ≤ length (join ls) + 1
length-dots [] = omega arith
length-dots (l ∷ ls) = omega arith

-- Where a packet has a name as RFC 1035 describes it, with no more pointers than the packet has
-- bytes, and there is memory for the name and its NUL, name_parse gives the labels with dots
-- between them, and the position behind the name.
pub name_parse-reads :
    (packet : Text) (name_out_len pos : ℕ) (ls : List Text) (h next : ℕ)
    → IsName packet pos ls h next
    → h ≤ length packet
    → length (join ls) < name_out_len
    → name_parse packet name_out_len pos ≡ some (some (join ls, next))
unfolding name_parse
name_parse-reads packet name_out_len pos ls h next is hops room =
    let same = with_labels-name packet pos ls h next is in
    let short = IsName-length packet pos ls h next is in
    let near = length-dots ls in
    name_loop-reads packet name_out_len (length packet + name_out_len + 2) pos ls h next none 0 []
      is (omega (arith, hops)) (omega arith) (omega (arith, ap (λ xs. length xs) same))
    ∙ ap (λ xs. some (some (xs, next))) same
