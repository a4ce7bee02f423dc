-- ===== src/Evdns/ParseLaws.antt =====
-- name_parse of evdns.c on any packet.
use libevent_linux.Prelude.{
  ℕ, zero, suc, ◌+◌, ◌*◌, ◌%◌, ◌≤◌, ◌<◌, ◌≡◌, refl, sym, ap, true, false, ◌&&◌, ◌||◌, Option, none,
  some, [], ◌∷◌, ◌++◌, length, take, drop, ltb, leb, ◌==◌, if_elim, length-append, length-take,
  length-drop, Option-cases, inl, inr, arith,
}
use mathlib.Core.Option.{some-ne-none}
use libevent_linux.Evdns.Names.{
  Text, first, byte_at, dotted, end_or, dot_fails, label_fails, copy_label, name_loop, name_parse,
}

-- A byte that is there is at a position of the packet.
pub byte_at-within : (packet : Text) (j c : ℕ) → byte_at packet j ≡ some c → j < length packet
byte_at-within packet j c h = at (drop j packet) refl h
  where
    at : (l : Text) → drop j packet ≡ l → first l ≡ some c → j < length packet
    at [] empty h = absurd (some-ne-none _ (sym h))
    at (d ∷ l) found h = omega (arith, ap (λ xs. length xs) found, length-drop j packet)

length-dotted : (name label : Text) → length name + length label ≤ length (dotted name ++ label)
length-dotted [] label = omega arith
length-dotted (c ∷ name) label =
    omega (arith, length-append ((c ∷ name) ++ 46 ∷ []) label, length-append name (46 ∷ []))

module _ (packet : Text) (name_out_len : ℕ) where
  -- An end of the loop, with a name and an index that are in bounds if there are any.
  abbrev pub Safe : Option (Option (Text × ℕ)) → Type 0
  Safe none = ⊥
  Safe (some none) = Unit {0}
  Safe (some (some (name_out, idx))) = (length name_out < name_out_len) × (idx ≤ length packet)

  abbrev Behind : Option ℕ → Type 0
  Behind none = Unit {0}
  Behind (some name_end) = name_end ≤ length packet

  end_or-within :
      (name_end : Option ℕ) (j : ℕ)
      → Behind name_end
      → j ≤ length packet
      → end_or name_end j ≤ length packet
  end_or-within none j b h = h
  end_or-within (some name_end) j b h = b

  -- A label that is copied makes the name longer, within the memory, and all that the copy reads
  -- and writes is inside.
  abbrev Longer : Text → Option (Option Text) → Type 0
  Longer name_out none = ⊥
  Longer name_out (some none) = Unit {0}
  Longer name_out (some (some name')) =
      (length name_out < length name') × (length name' < name_out_len)

  dotted-fits :
      (name_out : Text)
      → length name_out ≤ name_out_len
      → dot_fails packet name_out_len name_out ≡ false
      → ltb name_out_len (length (dotted name_out)) ≡ false
  dotted-fits [] room fits = ground arith
  dotted-fits (c ∷ name) room fits = ground (arith, fits, length-append name (46 ∷ []))

  copy_label-Longer :
      (j label_len : ℕ) (name_out : Text)
      → 0 < label_len
      → length name_out ≤ name_out_len
      → Longer name_out (copy_label packet name_out_len j label_len name_out)
  copy_label-Longer j label_len name_out some_bytes room =
      let written = dotted name_out in
      let label = take label_len (drop j packet) in
      let P = Longer name_out in
      if_elim P (dot_fails packet name_out_len name_out) (λ _. tt)
        (λ dot.
          if_elim P (ltb name_out_len (length written))
            (λ outside.
              let stays = dotted-fits name_out room dot in absurd (ground (arith, outside, stays)))
            (λ _.
              if_elim P (label_fails packet name_out_len j label_len written) (λ _. tt)
                (λ fits.
                  let inside : (leb (length written + label_len) name_out_len
                        && leb (j + label_len) (length packet))
                      ≡ true =
                    ground (arith, fits) in
                  let cut = length-take label_len (drop j packet) in
                  let left = length-drop j packet in
                  let sum = length-append written label in
                  let more = length-dotted name_out label in
                  rw inside (
                    ground (arith, fits, cut, left, sum, more),
                    ground (arith, fits, cut, left, sum),
                  ))))

  copied-Safe :
      (name_out : Text) (k : Text → Option (Option (Text × ℕ))) (r : Option (Option Text))
      → Longer name_out r
      → ((name' : Text)
          → length name_out < length name'
          → length name' < name_out_len
          → Safe (k name'))
      → Safe (elim r [ none ↦ none | some none ↦ some none | some (some name') ↦ k name' ])
  copied-Safe name_out k none longer next = longer
  copied-Safe name_out k (some none) longer next = tt
  copied-Safe name_out k (some (some name')) longer next = next name' longer.0 longer.1

  name_loop-Safe :
      (fuel j : ℕ) (name_end : Option ℕ) (ptr_count : ℕ) (name_out : Text)
      → Behind name_end
      → ptr_count ≤ length packet
      → length name_out ≤ name_out_len
      → length packet + name_out_len < fuel + ptr_count + length name_out
      → Safe (name_loop packet name_out_len fuel j name_end ptr_count name_out)
  unfolding name_loop
  name_loop-Safe zero j name_end ptr_count name_out behind pointers fits enough = omega arith
  name_loop-Safe (suc fuel) j name_end ptr_count name_out behind pointers fits enough =
      elim (Option-cases (byte_at packet j)) [
        | inl out ↦ rw (out, name_loop) tt
        | inr (label_len, here) ↦
            let inside = byte_at-within packet j label_len here in
            let label = take label_len (drop (j + 1) packet) in
            rw (here, name_loop)
              (if_elim Safe (label_len == 0)
                (λ _.
                  if_elim Safe (leb name_out_len (length name_out)) (λ _. tt)
                    (λ room.
                      let written : leb (length name_out + 1) name_out_len ≡ true =
                        ground (arith, room) in
                      rw written (
                        ground (arith, room),
                        end_or-within name_end (j + 1) behind (omega arith),
                      )))
                (λ some_bytes.
                  if_elim Safe (leb 64 label_len)
                    (λ _. elim (Option-cases (byte_at packet (j + 1))) [
                      | inl out ↦ rw out tt
                      | inr (ptr_low, there) ↦
                          let target = label_len % 64 * 256 + ptr_low in
                          let inside' = byte_at-within packet (j + 1) ptr_low there in
                          rw there (
                            if_elim Safe
                              (leb (length packet) target || ltb (length packet) (ptr_count + 1))
                              (λ _. tt)
                              (λ follows.
                                name_loop-Safe fuel target (some (end_or name_end (j + 2)))
                                  (ptr_count + 1) name_out
                                  (end_or-within name_end (j + 2) behind (omega arith))
                                  (ground (arith, follows)) fits (omega arith)))
                    ])
                    (λ _.
                      copied-Safe name_out
                        (λ name'.
                          name_loop packet name_out_len fuel (j + 1 + label_len) name_end ptr_count
                            name')
                        (copy_label packet name_out_len (j + 1) label_len name_out)
                        (copy_label-Longer (j + 1) label_len name_out (ground arith) fits)
                        (λ name' longer shorter.
                          name_loop-Safe fuel (j + 1 + label_len) name_end ptr_count name' behind
                            pointers (omega (arith, shorter)) (omega (arith, longer))))))
      ]

-- name_parse ends on any packet, also one whose pointers form a loop, and no byte that it reads or
-- writes is outside of the packet or of the memory for the name, on any branch: it gives an error,
-- or a name that fits in the memory with its NUL and an index that is at most the length of the
-- packet.
pub name_parse-Safe :
    (packet : Text) (name_out_len idx : ℕ)
    → Safe packet name_out_len (name_parse packet name_out_len idx)
unfolding name_parse
name_parse-Safe packet name_out_len idx =
    name_loop-Safe packet name_out_len (length packet + name_out_len + 2) idx none 0 [] tt
      (omega arith) (omega arith) (omega arith)
