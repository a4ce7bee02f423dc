-- ===== src/Tagging/Nibble.antt =====
-- The halves of a byte array, as ENCODE_INT_INTERNAL writes and DECODE_INT_INTERNAL reads them.
use libevent_linux.Prelude.{
  ℕ, zero, suc, ◌+◌, ◌*◌, ◌/◌, ◌%◌, ◌≤◌, ◌<◌, ◌≡◌, refl, ap, ◌∙◌, length, set, get_or, get_or-set,
  length-set, ◌==◌, if◌then◌else◌, arith,
}
use libevent_linux.Prelude.Bits.{bit_and_0xf, bit_and_0xf0, bit_and-one, bit_or_high, bit_or_low}
use libevent_linux.Tagging.{Bytes, put_nibble}

-- Nibble `p`: nibble 0 is the high half of the first byte, nibble 1 its low half... of the byte
-- `p / 2` an even `p` names the high half.
abbrev pub nibble : Bytes → ℕ → ℕ
nibble data_ p =
    let byte = get_or data_ (p / 2) 0 in if p % 2 == 1 then byte % 16 else byte / 16 % 16

pub length-put_nibble :
    (data_ : Bytes) (off number : ℕ) → length (put_nibble data_ off number) ≡ length data_
unfolding put_nibble
length-put_nibble data_ off number = length-set data_ (off / 2) _

put_nibble_lem :
    (data_ : Bytes) (off number : ℕ)
    → let old = get_or data_ (off / 2) 0 in
      put_nibble data_ off number
      ≡ set data_
          (off / 2)
          (if off % 2 == 1 then old / 16 % 16 * 16 + number % 16 else number % 16 * 16 + old % 16)
unfolding put_nibble
put_nibble_lem data_ off number =
    let old = get_or data_ (off / 2) 0 in
    rw
      (
        bit_and-one off,
        bit_and_0xf number,
        bit_and_0xf old,
        bit_and_0xf0 old,
        bit_or_high 4 (old / 16 % 16) (number % 16) (omega arith),
        bit_or_low 4 (old % 16) (number % 16) (omega arith),
      )
      refl

-- A write changes its nibble and no other.
pub nibble-put_nibble :
    (data_ : Bytes) (off number p : ℕ)
    → off / 2 < length data_
    → nibble (put_nibble data_ off number) p ≡ (if off == p then number % 16 else nibble data_ p)
nibble-put_nibble data_ off number p h =
    rw (put_nibble_lem, get_or-set data_ (off / 2) (p / 2) _ 0 h) (ground arith)

-- The value of the nibbles `lo` to `lo + n - 1`, the last the most significant.
abbrev pub read : Bytes → ℕ → ℕ → ℕ → ℕ
read data_ lo zero acc = acc
read data_ lo (suc n) acc = read data_ lo n (acc * 16 + nibble data_ (lo + n))

pub read-suc :
    (data_ : Bytes) (lo n acc : ℕ)
    → read data_ lo (suc n) acc ≡ read data_ (suc lo) n acc * 16 + nibble data_ lo
read-suc data_ lo zero acc = ap (λ p. acc * 16 + nibble data_ p) (omega arith)
read-suc data_ lo (suc n) acc =
    read-suc data_ lo n (acc * 16 + nibble data_ (lo + suc n))
    ∙ ap (λ p. read data_ (suc lo) n (acc * 16 + nibble data_ p) * 16 + nibble data_ lo)
        (omega arith)

-- What is read depends on the nibbles read alone.
pub read_ext :
    (a b : Bytes) (lo n acc : ℕ)
    → ((p : ℕ) → lo ≤ p → p < lo + n → nibble a p ≡ nibble b p)
    → read a lo n acc ≡ read b lo n acc
read_ext a b lo zero acc h = refl
read_ext a b lo (suc n) acc h =
    read_ext a b lo n (acc * 16 + nibble a (lo + n)) (λ p q r. h p q (omega arith))
    ∙ ap (λ x. read b lo n (acc * 16 + x)) (h (lo + n) (omega arith) (omega arith))
