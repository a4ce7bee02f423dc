-- ===== src/Evdns/Names.antt =====
-- name_parse of evdns.c. The packet and the name are lists of bytes; `length` is that of the packet.
-- The NUL behind the name is left out.
use libevent_linux.Prelude.{
  ℕ, zero, suc, ◌+◌, ◌*◌, ◌%◌, Bool, false, ◌&&◌, ◌||◌, Option, none, some, List, [], ◌∷◌, ◌++◌,
  length, take, drop, ltb, leb, ◌==◌, if◌then◌else◌,
}

abbrev pub Text : Type 0
Text = List ℕ

-- GET8: `none` behind the end of the packet.
abbrev pub first : Text → Option ℕ
first [] = none
first (c ∷ packet) = some c

abbrev pub byte_at : Text → ℕ → Option ℕ
byte_at packet j = first (drop j packet)

-- A dot, unless the name is empty.
abbrev pub dotted : Text → Text
dotted [] = []
dotted (c ∷ name) = (c ∷ name) ++ 46 ∷ []

-- `*idx`: behind the first pointer if there was one.
abbrev pub end_or : Option ℕ → ℕ → ℕ
end_or none j = j
end_or (some name_end) j = name_end

module _ (packet : Text) (name_out_len : ℕ) where
  -- The end of the loop: a test, and then the NUL is written. The outer `none` is a byte written
  -- behind the memory for the name.
  abbrev pub finish : ℕ → Option ℕ → Text → Option (Option (Text × ℕ))
  finish j name_end name_out =
      let written : Option (Option (Text × ℕ)) =
        if leb (length name_out + 1) name_out_len
        then some (some (name_out, end_or name_end j))
        else none in
      if leb name_out_len (length name_out) then some none else written

  abbrev pub dot_fails : Text → Bool
  dot_fails [] = false
  dot_fails (c ∷ name) = leb name_out_len (length (c ∷ name) + 1)

  -- Whether the label does not fit behind what is written, or is cut off.
  abbrev pub label_fails : ℕ → ℕ → Text → Bool
  label_fails j label_len written =
      leb name_out_len (length written + label_len) || ltb (length packet) (j + label_len)

  -- The memcpy of a label: `none` if it reads behind the packet or writes behind the memory.
  abbrev pub memcpy_label : ℕ → ℕ → Text → Option Text
  memcpy_label j label_len written =
      if leb (length written + label_len) name_out_len && leb (j + label_len) (length packet)
      then some (written ++ take label_len (drop j packet))
      else none

  -- A label, with the tests and the writes in their order: the dot, and the bytes. The outer `none`
  -- is an access outside the packet or the memory, the inner one is -1.
  abbrev pub copy_label : ℕ → ℕ → Text → Option (Option Text)
  copy_label j label_len name_out =
      let written = dotted name_out in
      if dot_fails name_out
      then some none
      else if ltb name_out_len (length written)
      then none
      else if label_fails j label_len written
      then some none
      else elim (memcpy_label j label_len written) [ none ↦ none | some name' ↦ some (some name') ]

  -- The loop, at `j`, with what was read so far. The outer `none` means that the fuel ran out,
  -- or that a byte outside the packet or the memory was read or written; the inner one is -1. A byte is below 256, so that one with `label_len & 0xc0` is at least 64, and
  -- the test `label_len > 63` that follows never succeeds.
  unfoldable pub name_loop : ℕ → ℕ → Option ℕ → ℕ → Text → Option (Option (Text × ℕ))
  name_loop zero j name_end ptr_count name_out = none
  name_loop (suc fuel) j name_end ptr_count name_out = elim (byte_at packet j) [
    | none ↦ some none
    | some label_len ↦
        let pointer : Option (Option (Text × ℕ)) = elim (byte_at packet (j + 1)) [
          | none ↦ some none
          | some ptr_low ↦
              let target = label_len % 64 * 256 + ptr_low in
              let rest =
                name_loop fuel target (some (end_or name_end (j + 2))) (ptr_count + 1) name_out in
              if leb (length packet) target || ltb (length packet) (ptr_count + 1)
              then some none
              else rest
        ] in
        let label : Option (Option (Text × ℕ)) = elim (copy_label (j + 1) label_len name_out) [
          | none ↦ none
          | some none ↦ some none
          | some (some name') ↦ name_loop fuel (j + 1 + label_len) name_end ptr_count name'
        ] in
        if label_len == 0
        then finish (j + 1) name_end name_out
        else if leb 64 label_len
        then pointer
        else label
  ]

  -- The name and the index behind it. Each round follows a pointer or adds to the name, so that
  -- their limits bound the number of rounds.
  unfoldable pub name_parse : ℕ → Option (Option (Text × ℕ))
  unfolding name_loop
  name_parse idx = name_loop (length packet + name_out_len + 2) idx none 0 []
