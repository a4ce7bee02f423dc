-- ===== src/Evdns/LabelLaws.antt =====
-- dnsname_to_labels of evdns.c writes names as RFC 1035 describes them.
use libevent_linux.Prelude.{
  ℕ, zero, suc, ◌+◌, ◌^◌, ◌≤◌, ◌<◌, ◌≡◌, refl, sym, ap, ◌∙◌, Bool, false, Option, none, some, List,
  [], ◌∷◌, ◌++◌, length, ltb, if_elim, length-append, Option-cases, ◌⊎◌, inl, inr, arith,
}
use mathlib.Core.List.{append_assoc, append-nil}
use mathlib.Core.Path.{subst}
use libevent_linux.Evdns.Names.{Text}
use libevent_linux.Evdns.Labels.{
  Table, Labels, split_dot, last_is_zero, label_too_long, no_room, encoded, find, remember,
  labels_loop,
}
use libevent_linux.Evdns.Wire.{IsName, dots, join}
use libevent_linux.Evdns.TableLaws.{
  Entries, find-entry, remember-Entries, Entries-map, split_dot-label, split_dot-last, last-label,
}
use libevent_linux.Evdns.Endings.{
  AreLabels, Known, Known-append, Ends, pointer-Ends, label-Ends, last-Ends,
}

-- What the function writes for the name at the end of a buffer: never too long a label; if there is
-- no room, then less than for the whole name; or else the name, and entries of the table that are
-- old or names of the packet.
abbrev pub Written : ℕ → Text → Text → ℕ → (Text → ℕ → Type 0) → Option Labels → Type 0
Written buf_len buf name limit Old none = ⊥
Written buf_len buf name limit Old (some (label_too_long written table)) = ⊥
Written buf_len buf name limit Old (some (no_room written table)) =
    buf_len < length buf + length name + 1
Written buf_len buf name limit Old (some (encoded packet table)) =
    ((more : Text) × (packet ≡ buf ++ more))
    × Ends packet limit name (length buf)
    × Entries (λ v pos. Old v pos ⊎ Known packet limit v pos) table

-- A new entry is a name of the packet.
settle :
    (P : Text → ℕ → Type 0) (packet name : Text) (limit at : ℕ)
    → Ends packet limit name at
    → (v : Text) (pos : ℕ) → (P v pos ⊎ ((v ≡ name) × (pos ≡ at))) ⊎ Known packet limit v pos
    → P v pos ⊎ Known packet limit v pos
settle P packet name limit at ends v pos (inl (inl old)) = inl old
settle P packet name limit at (ls, h, same, few, is) v pos (inl (inr (this, here))) = inr (
  ls,
  h,
  length packet,
  this ∙ same,
  few,
  subst (λ p. IsName packet p ls h (length packet)) (sym here) is,
)
settle P packet name limit at ends v pos (inr known) = inr known

-- The texts of a name with several labels.
join-labels : (l m : Text) (ls : List Text) → join (l ∷ m ∷ ls) ≡ l ++ 46 ∷ join (m ∷ ls)
join-labels l m ls = refl

length-join :
    (l m : Text) (ls : List Text)
    → length (join (l ∷ m ∷ ls)) ≡ length l + 1 + length (join (m ∷ ls))
length-join l m ls = omega (arith, length-append l (46 ∷ join (m ∷ ls)))

-- A label in front of other names of the same text.
join-same :
    (l m : Text) (ls ls' : List Text)
    → 0 < length m
    → join (m ∷ ls) ≡ join ls'
    → join (l ∷ m ∷ ls) ≡ join (l ∷ ls')
join-same l m ls [] some_bytes same =
    absurd (omega (arith, ap (λ xs. length xs) same, length-append m (dots ls)))
join-same l m ls (m' ∷ ls') some_bytes same = ap (λ xs. l ++ 46 ∷ xs) same

-- A label, and what is written for the rest of the name behind it.
label-Written :
    (buf_len : ℕ) (buf l m : Text) (ls : List Text) (limit : ℕ) (Old : Text → ℕ → Type 0)
    (r : Option Labels)
    → 0 < length l
    → length l ≤ 63
    → 0 < length m
    → let name = join (l ∷ m ∷ ls) in
      Written buf_len
        (buf ++ length l ∷ l)
        (join (m ∷ ls))
        limit
        (λ v pos. Old v pos ⊎ ((v ≡ name) × (pos ≡ length buf)))
        r
      → Written buf_len buf name limit Old r
label-Written buf_len buf l m ls limit Old none some_bytes short some_more w = w
label-Written buf_len buf l m ls limit Old (some (label_too_long written table)) some_bytes short
      some_more w =
    w
label-Written buf_len buf l m ls limit Old (some (no_room written table)) some_bytes short some_more
      w =
    omega (arith, w, length-append buf (length l ∷ l), length-join l m ls)
label-Written buf_len buf l m ls limit Old (some (encoded packet table)) some_bytes short some_more
      ((more, grown), (ls', h, same, few, is), entries) =
    let name = join (l ∷ m ∷ ls) in
    let buf' = buf ++ length l ∷ l in
    let same' : name ≡ join (l ∷ ls') = join-same l m ls ls' some_more same in
    let is' : IsName (buf' ++ more) (length buf') ls' h (length (buf' ++ more)) =
      subst (λ p. IsName p (length buf') ls' h (length p)) grown is in
    let ends : Ends packet limit name (length buf) =
      subst (λ p. Ends p limit name (length buf)) (sym grown)
        (label-Ends buf l more name limit some_bytes short ls' h same' few is') in
    (
      (length l ∷ (l ++ more), grown ∙ append_assoc buf (length l ∷ l) more),
      ends,
      Entries-map _ (λ v pos. Old v pos ⊎ Known packet limit v pos) table
          (settle Old packet name limit (length buf) ends) entries,
    )

-- What the table may hold: the names of the buffer, and longer ones.
abbrev KnownUpTo : ℕ → Text → ℕ → (Text → ℕ → Type 0) → Type 0
KnownUpTo n buf start Old = (v : Text) (pos : ℕ) → Old v pos → length v ≤ n → Known buf start v pos

-- While a name is written, its own entries are longer than what is left of it.
known-rest :
    (buf l m : Text) (ls : List Text) (start : ℕ) (Old : Text → ℕ → Type 0)
    → let name = join (l ∷ m ∷ ls) in
      KnownUpTo (length name) buf start Old
      → KnownUpTo
          (length (join (m ∷ ls)))
          (buf ++ length l ∷ l)
          start
          (λ v pos. Old v pos ⊎ ((v ≡ name) × (pos ≡ length buf)))
known-rest buf l m ls start Old known v pos (inl old) short =
    Known-append buf (length l ∷ l) start pos v
      (known v pos old (omega (arith, length-join l m ls, short)))
known-rest buf l m ls start Old known v pos (inr (same, here)) short =
    absurd (omega (arith, length-join l m ls, short, ap (λ xs. length xs) same))

module _ (buf_len : ℕ) (memory : Bool) (small : buf_len ≤ 2 ^ 14) where
  pointer-Written :
      (fuel start : ℕ) (buf name : Text) (ref : ℕ) (table : Option Table) (Old : Text → ℕ → Type 0)
      → find table name ≡ some ref
      → 0 < length name
      → length buf ≤ buf_len
      → Entries Old table
      → KnownUpTo (length name) buf start Old
      → Written buf_len buf name
          (start + 1)
          Old
          (labels_loop buf_len memory (suc fuel) buf name table)
  unfolding labels_loop
  pointer-Written fuel start buf name ref table Old found some_bytes room all known =
      let at = known name ref (find-entry Old table name ref all found) (omega arith) in
      rw (found, labels_loop)
        (if_elim (Written buf_len buf name (start + 1) Old) (ltb buf_len (length buf + 2))
          (λ full. ground (arith, full))
          (λ _. (
            (_, refl),
            pointer-Ends buf name start ref (omega (arith, small, room)) at,
            Entries-map Old _ table (λ v pos old. inl old) all,
          )))

  last-Written :
      (fuel start : ℕ) (buf l : Text) (table : Option Table) (Old : Text → ℕ → Type 0)
      → find table (join (l ∷ [])) ≡ none
      → AreLabels (l ∷ [])
      → Entries Old table
      → Written buf_len buf
          (join (l ∷ []))
          (start + 1)
          Old
          (labels_loop buf_len memory (suc fuel) buf (join (l ∷ [])) table)
  unfolding labels_loop
  last-Written fuel start buf l table Old new (some_bytes, short, plain, good) all =
      let name = join (l ∷ []) in
      let whole : name ≡ l = append-nil l in
      let pieces : split_dot name ≡ (l, none) = ap split_dot whole ∙ split_dot-last l plain in
      let size = ap (λ xs. length xs) whole in
      let buf' = buf ++ length l ∷ l in
      let ends = last-Ends buf l (start + 1) some_bytes short (omega arith) in
      let open_end : last_is_zero buf' ≡ false = last-label buf (length l) l plain some_bytes in
      let P = Written buf_len buf name (start + 1) Old in
      rw (new, pieces, labels_loop)
        (if_elim P (ltb 63 (length l)) (λ long. absurd (ground (arith, long)))
          (λ _.
            if_elim P (ltb buf_len (length buf + length l + 1)) (λ full. ground (arith, full, size))
              (λ _.
                rw (pieces, open_end)
                  (
                    (_, append_assoc buf (length l ∷ l) (0 ∷ [])),
                    ends,
                    Entries-map _ _ (remember table name (length buf) memory)
                        (settle Old (buf' ++ 0 ∷ []) name (start + 1) (length buf) ends)
                        (remember-Entries
                          (λ v pos.
                            (Old v pos ⊎ ((v ≡ name) × (pos ≡ length buf)))
                            ⊎ Known (buf' ++ 0 ∷ []) (start + 1) v pos)
                          table name (length buf) memory
                          (Entries-map Old _ table (λ v pos old. inl (inl old)) all)
                          (inl (inr (refl, refl)))),
                  ))))

  pub labels_loop-Written :
      (fuel start : ℕ) (buf l : Text) (ls : List Text) (table : Option Table)
      (Old : Text → ℕ → Type 0)
      → AreLabels (l ∷ ls)
      → length buf ≤ buf_len
      → length (join (l ∷ ls)) < fuel
      → Entries Old table
      → KnownUpTo (length (join (l ∷ ls))) buf start Old
      → Written buf_len buf
          (join (l ∷ ls))
          (start + 1)
          Old
          (labels_loop buf_len memory fuel buf (join (l ∷ ls)) table)
  unfolding labels_loop
  labels_loop-Written zero start buf l ls table Old good room enough all known =
      absurd (omega arith)
  labels_loop-Written (suc fuel) start buf l [] table Old good room enough all known =
      let name = join (l ∷ []) in
      let sum = length-append l [] in
      elim (Option-cases (find table name)) [
        | inr (ref, found) ↦
            pointer-Written fuel start buf name ref table Old found (omega arith) room all known
        | inl new ↦ last-Written fuel start buf l table Old new good all
      ]
  labels_loop-Written (suc fuel) start buf l (m ∷ ls) table Old good room enough all known =
      let name = join (l ∷ m ∷ ls) in
      let (some_bytes, short, plain, good') = good in
      let sum = length-join l m ls in
      elim (Option-cases (find table name)) [
        | inr (ref, found) ↦
            pointer-Written fuel start buf name ref table Old found (omega arith) room all known
        | inl new ↦
            let pieces = split_dot-label l (join (m ∷ ls)) plain in
            let buf' = buf ++ length l ∷ l in
            let table' = remember table name (length buf) memory in
            let Old' = λ (v : Text) (pos : ℕ). Old v pos ⊎ ((v ≡ name) × (pos ≡ length buf)) in
            let P = Written buf_len buf name (start + 1) Old in
            rw (new, pieces, labels_loop)
              (if_elim P (ltb 63 (length l)) (λ long. absurd (ground (arith, long, short)))
                (λ _.
                  if_elim P (ltb buf_len (length buf + length l + 1))
                    (λ full. ground (arith, full, sum))
                    (λ space. rw pieces (
                      label-Written buf_len buf l m ls (start + 1) Old
                        (labels_loop buf_len memory fuel buf' (join (m ∷ ls)) table') some_bytes
                        short good'.0
                        (labels_loop-Written fuel start buf' m ls table' Old' good'
                          (ground (arith, space, length-append buf (length l ∷ l))) (omega arith)
                          (remember-Entries Old' table name (length buf) memory
                            (Entries-map Old Old' table (λ v pos old. inl old) all)
                            (inr (refl, refl)))
                          (known-rest buf l m ls start Old known))))))
      ]
