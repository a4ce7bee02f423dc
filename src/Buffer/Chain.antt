-- ===== src/Buffer/Chain.antt =====
-- One chain of buffer.c (struct evbuffer_chain of evbuffer-internal.h): a block of memory with
-- unused bytes, then the data, then free space. The model is of chains with memory: those of file
-- segments that are sent without being read have none. No code of the repository pins a chain.
use libevent_linux.Prelude.{
  ℕ, zero, suc, ◌+◌, ◌-◌, ◌*◌, ◌/◌, ◌^◌, Bool, false, not, ◌&&◌, ◌||◌, Option, none, some, List,
  ◌++◌, length, take, drop, replicate, ltb, leb, if◌then◌else◌,
}

abbrev pub Bytes : Type 0
Bytes = List ℕ

-- `immutable` is EVBUFFER_IMMUTABLE.
pub record Chain : Type 0 where
  pub buffer : Bytes
  pub buffer_len : ℕ
  pub misalign : ℕ
  pub off : ℕ
  pub immutable : Bool

-- The bytes that a chain holds.
abbrev pub bytes : Chain → Bytes
bytes chain = take chain.off (drop chain.misalign chain.buffer)

-- `memcpy (buffer + at, from, length)`: what does not fit would be written past the end.
abbrev pub memcpy : Bytes → ℕ → Bytes → Bytes
memcpy buffer at from = take at buffer ++ (from ++ drop (at + length from) buffer)

-- CHAIN_SPACE_LEN.
abbrev pub chain_space_len : Chain → ℕ
chain_space_len chain =
    if chain.immutable then 0 else chain.buffer_len - (chain.misalign + chain.off)

-- EVBUFFER_CHAIN_MAX, and EVBUFFER_CHAIN_SIZE on a machine of 64 bits.
abbrev pub chain_max : ℕ
chain_max = 2 ^ 63 - 1

abbrev pub chain_size : ℕ
chain_size = 48

-- `while (to_alloc < size) to_alloc <<= 1`: the size is enough fuel, since `to_alloc` grows.
unfoldable pub double_until : ℕ → ℕ → ℕ → ℕ
double_until zero to_alloc size = to_alloc
double_until (suc fuel) to_alloc size =
    let rest = double_until fuel (to_alloc * 2) size in if ltb to_alloc size then rest else to_alloc

unfoldable pub allocation : ℕ → ℕ
unfolding double_until
allocation size = if ltb size (chain_max / 2) then double_until size 1024 size else size

-- `memory` is the answer of mm_malloc. What the new memory holds is not used.
unfoldable pub evbuffer_chain_new : ℕ → Bool → Option Chain
unfolding allocation
evbuffer_chain_new size memory =
    let buffer_len = allocation (size + chain_size) - chain_size in
    if ltb (chain_max - chain_size) size || not memory
    then none
    else some (record {
      buffer = replicate buffer_len 0;
      buffer_len = buffer_len;
      misalign = 0;
      off = 0;
      immutable = false;
    })

-- `memmove` to the start of the memory.
abbrev pub evbuffer_chain_align : Chain → Chain
evbuffer_chain_align chain = record chain {
  buffer = memcpy chain.buffer 0 (bytes chain);
  misalign = 0;
}

-- MAX_TO_REALIGN_IN_EXPAND is 2048.
abbrev pub evbuffer_chain_should_realign : Chain → ℕ → Bool
evbuffer_chain_should_realign chain datlen =
    leb datlen (chain.buffer_len - chain.off)
    && ltb chain.off (chain.buffer_len / 2)
    && leb chain.off 2048

-- Bytes copied behind the data, and before it.
abbrev pub put_end : Bytes → Chain → Chain
put_end bytes chain = record chain {
  buffer = memcpy chain.buffer (chain.misalign + chain.off) bytes;
  off = chain.off + length bytes;
}

abbrev pub put_start : Bytes → Chain → Chain
put_start bytes chain = record chain {
  buffer = memcpy chain.buffer (chain.misalign - length bytes) bytes;
  off = chain.off + length bytes;
  misalign = chain.misalign - length bytes;
}

-- `n` bytes taken from the front.
abbrev pub take_start : ℕ → Chain → Chain
take_start n chain = record chain { misalign = chain.misalign + n; off = chain.off - n }
