-- ===== src/Tagging.antt =====
-- event_tagging.c: integers by nibbles, tags by seven bits, and the tagged records built of them.
-- An evbuffer is the list of its bytes: `evbuffer_add` appends, `evbuffer_drain` drops from the
-- front, and the bytes that `evbuffer_pullup` makes contiguous are those that may be read.
-- Allocation succeeds.
pub mod Nibble
pub mod IntCode
pub mod TagCode
pub mod Record
pub mod Marshal
mod Tests
use libevent_linux.Prelude.{
  ℕ, zero, suc, ◌+◌, ◌-◌, ◌*◌, ◌/◌, ◌%◌, ◌^◌, min, bit_and, bit_or, ◌||◌, Bool, true, false, Option,
  none, some, List, [], ◌∷◌, ◌++◌, length, get_or, set, take, drop, replicate, ltb, leb, ◌==◌,
  if◌then◌else◌,
}

abbrev pub Bytes : Type 0
Bytes = List ℕ

-- A nibble of `number` goes to the low or the high half of `data[off / 2]`.
unfoldable pub put_nibble : Bytes → ℕ → ℕ → Bytes
put_nibble data_ off number =
    let old = get_or data_ (off / 2) 0 in
    set data_ (off / 2) (
      if bit_and off 1 == 1
      then bit_or (bit_and old 0xf0) (bit_and number 0x0f)
      else bit_or (bit_and old 0x0f) (bit_and number 0x0f * 2 ^ 4))

-- `while (number)`: the fuel is the number, which a shift makes smaller.
unfoldable pub encode_loop : ℕ → Bytes → ℕ → ℕ → Bytes × ℕ
unfolding put_nibble
encode_loop zero data_ off number = (data_, off)
encode_loop (suc fuel) data_ off number =
    let rest = encode_loop fuel (put_nibble data_ off number) (off + 1) (number / 2 ^ 4) in
    if number == 0 then (data_, off) else rest

-- ENCODE_INT_INTERNAL over a number of `size` bytes: the array and the bytes used of it.
unfoldable pub encode_int_internal : ℕ → ℕ → Bytes × ℕ
unfolding encode_loop
encode_int_internal size number =
    let (data_, off) = encode_loop number (replicate (size + 1) 0) 1 number in
    let nibbles = if ltb 2 off then off - 2 else 0 in
    let first = bit_or (bit_and (get_or data_ 0 0) 0x0f) (bit_and nibbles 0x0f * 2 ^ 4) in
    (set data_ 0 first, (off + 1) / 2)

abbrev size_u32 : ℕ
size_u32 = 4

abbrev size_u64 : ℕ
size_u64 = 8

unfoldable pub evtag_encode_int : Bytes → ℕ → Bytes
unfolding encode_int_internal
evtag_encode_int evbuf number =
    let (data_, len) = encode_int_internal size_u32 number in evbuf ++ take len data_

unfoldable pub evtag_encode_int64 : Bytes → ℕ → Bytes
unfolding encode_int_internal
evtag_encode_int64 evbuf number =
    let (data_, len) = encode_int_internal size_u64 number in evbuf ++ take len data_

-- The `do … while (tag)` of evtag_encode_tag: seven bits a byte, and the high bit if more follow.
unfoldable pub encode_tag_loop : ℕ → ℕ → Bytes
encode_tag_loop zero tag = bit_and tag 0x7f ∷ []
encode_tag_loop (suc fuel) tag =
    let lower = bit_and tag 0x7f in
    let rest = bit_or lower 0x80 ∷ encode_tag_loop fuel (tag / 2 ^ 7) in
    if tag / 2 ^ 7 == 0 then lower ∷ [] else rest

unfoldable pub evtag_encode_tag : Bytes → ℕ → Bytes × ℕ
unfolding encode_tag_loop
evtag_encode_tag evbuf tag = let code = encode_tag_loop tag tag in (evbuf ++ code, length code)

-- What a read of a tag comes to. `overread` is a read past the bytes that evbuffer_pullup made
-- contiguous.
pub data TagRead : Type 0 where
  decoded : ℕ → ℕ → TagRead
  malformed overread : TagRead

-- The loop of decode_tag_internal: `window` is what is left of the contiguous bytes, `len` how
-- many bytes of the buffer have not been counted, `shift` and `number` as there.
unfoldable pub decode_tag_loop : ℕ → Bytes → ℕ → ℕ → ℕ → TagRead
decode_tag_loop zero window shift number count = malformed
decode_tag_loop (suc len) [] shift number count = overread
decode_tag_loop (suc len) (lower ∷ window) shift number count =
    let number' = bit_or number (bit_and lower 0x7f * 2 ^ shift % 2 ^ 32) in
    let rest = decode_tag_loop len window (shift + 7) number' (count + 1) in
    let accept = if bit_and lower 0x80 == 0 then decoded number' (count + 1) else rest in
    let fits = if ltb 28 shift || ltb 15 (bit_and lower 0x7f) then malformed else accept in
    if leb 28 shift then fits else accept

-- The tag and the bytes that it takes.
unfoldable pub decode_tag_internal : Bytes → TagRead
unfolding decode_tag_loop
decode_tag_internal evbuf =
    let len = length evbuf in
    if len == 0 then malformed else decode_tag_loop len (take (min len 5) evbuf) 0 0 0

-- What a function on an evbuffer returns, beside the buffer that it leaves. `error` is the -1.
pub data Outcome {ℓ} (A : Type ℓ) : Type ℓ where
  ok : A → Bytes → Outcome A
  error : Bytes → Outcome A
  fault : Outcome A

infixl 5 ◌>>=◌
abbrev pub ◌>>=◌ {ℓ κ} : {A : Type ℓ} {B : Type κ} → Outcome A → (A → Bytes → Outcome B) → Outcome B
ok a buf >>= f = f a buf
error buf >>= f = error buf
fault >>= f = fault

abbrev tag_outcome : TagRead → Bytes → Bool → Outcome (ℕ × ℕ)
tag_outcome (decoded tag count) evbuf true = ok (tag, count) (drop count evbuf)
tag_outcome (decoded tag count) evbuf false = ok (tag, count) evbuf
tag_outcome malformed evbuf dodrain = error evbuf
tag_outcome overread evbuf dodrain = fault

unfoldable pub evtag_decode_tag : Bytes → Outcome (ℕ × ℕ)
unfolding decode_tag_internal
evtag_decode_tag evbuf = tag_outcome (decode_tag_internal evbuf) evbuf true

unfoldable pub evtag_peek : Bytes → Outcome (ℕ × ℕ)
unfolding decode_tag_internal
evtag_peek evbuf = tag_outcome (decode_tag_internal evbuf) evbuf false

-- The loop of DECODE_INT_INTERNAL over a number of `width` bits.
unfoldable pub decode_loop : ℕ → Bytes → ℕ → ℕ → ℕ
decode_loop width data_ zero number = number
decode_loop width data_ (suc n) number =
    let byte = get_or data_ (suc n / 2) 0 in
    let shifted = number * 2 ^ 4 % 2 ^ width in
    decode_loop width data_ n (
      if bit_and (suc n) 1 == 1
      then bit_or shifted (bit_and byte 0x0f)
      else bit_or shifted (bit_and byte 0xf0 / 2 ^ 4))

-- DECODE_INT_INTERNAL at an offset: the number and the bytes that it takes. `len` there is the
-- length less the offset, and not positive where this list is empty.
unfoldable pub decode_int_internal : ℕ → ℕ → Bytes → ℕ → Option (ℕ × ℕ)
unfolding decode_loop
decode_int_internal width maxnibbles evbuf offset =
    let data_ = drop offset evbuf in
    let len = length data_ in
    let nibbles = bit_and (get_or data_ 0 0) 0xf0 / 2 ^ 4 + 1 in
    if len == 0
    then none
    else if ltb maxnibbles nibbles || ltb len (nibbles / 2 + 1)
    then none
    else some (decode_loop width data_ nibbles 0, nibbles / 2 + 1)

abbrev drain_decoded : Option (ℕ × ℕ) → Bytes → Outcome ℕ
drain_decoded none evbuf = error evbuf
drain_decoded (some (number, res)) evbuf = ok number (drop res evbuf)

unfoldable pub evtag_decode_int : Bytes → Outcome ℕ
unfolding decode_int_internal
evtag_decode_int evbuf = drain_decoded (decode_int_internal 32 8 evbuf 0) evbuf

unfoldable pub evtag_decode_int64 : Bytes → Outcome ℕ
unfolding decode_int_internal
evtag_decode_int64 evbuf = drain_decoded (decode_int_internal 64 16 evbuf 0) evbuf
