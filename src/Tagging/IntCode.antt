-- ===== src/Tagging/IntCode.antt =====
-- encode_int_internal against decode_int_internal.
use native.Mathlib.Nat.{
  pow-suc, one-le-pow, mod-eq_of_lt, mul-le-mul_right, pow-le-pow_right, le_trans,
}
use native.Mathlib.Decide.{ℕ_discrete}
use libevent_linux.Prelude.{
  ℕ, zero, suc, ◌+◌, ◌-◌, ◌*◌, ◌/◌, ◌%◌, ◌^◌, bit_and, bit_or, ◌≤◌, ◌<◌, ◌≡◌, ◌≢◌, refl, ap, ◌∙◌,
  some, ◌++◌, length, get_or, take, replicate, get_or-append, get_or-take, length-replicate,
  get_or-replicate, length-take, length-append, ◌==◌, if◌then◌else◌, Bool-cases, inl, inr, ltb,
  arith,
}
use libevent_linux.Prelude.Bits.{bit_and_0xf, bit_and_0xf0, bit_and-one, bit_or_high}
use libevent_linux.Tagging.{
  Bytes, put_nibble, encode_loop, encode_int_internal, decode_loop, decode_int_internal,
}
use libevent_linux.Tagging.Nibble.{
  nibble, nibble-put_nibble, length-put_nibble, read, read-suc, read_ext,
}

-- What the encoding loop leaves: `count` nibbles from `off` on hold the number, and those below
-- `off` are as before.
pub record IsWritten (data_ : Bytes) (off number room : ℕ) (out : Bytes × ℕ) : Type 0 where
  pub count : ℕ
  pub last : out.1 ≡ off + count
  pub fits : count ≤ room
  pub size : length out.0 ≡ length data_
  pub value : read out.0 off count 0 ≡ number
  pub below : (p : ℕ) → p < off → nibble out.0 p ≡ nibble data_ p
  pub needed : number ≢ 0 → 0 < count

encode_loop-zero :
    (fuel : ℕ) (data_ : Bytes) (off : ℕ) → encode_loop fuel data_ off 0 ≡ (data_, off)
unfolding encode_loop
encode_loop-zero zero data_ off = refl
encode_loop-zero (suc fuel) data_ off = refl

IsWritten-zero :
    (fuel : ℕ) (data_ : Bytes) (off number room : ℕ)
    → number ≡ 0
    → IsWritten data_ off number room (encode_loop fuel data_ off number)
IsWritten-zero fuel data_ off number room e =
    rw (e, encode_loop-zero)
      (record {
        count = 0;
        last = omega arith;
        fits = omega arith;
        size = refl;
        value = refl;
        below = λ p h. refl;
        needed = λ h. absurd (h refl);
      })

IsWritten-suc :
    (data_ : Bytes) (off number room : ℕ) (out : Bytes × ℕ)
    → off / 2 < length data_
    → IsWritten (put_nibble data_ off number) (off + 1) (number / 16) room out
    → IsWritten data_ off number (suc room) out
IsWritten-suc data_ off number room out h w = record {
  count = suc w.count;
  last = omega (arith, w.last);
  fits = omega (arith, w.fits);
  size = w.size ∙ length-put_nibble data_ off number;
  value = omega (
    arith,
    read-suc out.0 off w.count 0,
    ap (λ o. read out.0 o w.count 0) one_on,
    w.value,
    w.below off (omega arith) ∙ nibble-put_nibble data_ off number off h ∙ here,
  );
  below = λ p q. ground (arith, w.below p, nibble-put_nibble data_ off number p h);
  needed = λ n. omega arith;
}
  where
    one_on : suc off ≡ off + 1
    one_on = omega arith

    here : (if off == off then number % 16 else nibble data_ off) ≡ number % 16
    here = ground arith

pub encode_loop-IsWritten :
    (room fuel : ℕ) (data_ : Bytes) (off number : ℕ)
    → number < 16 ^ room
    → off + room ≤ 2 * length data_
    → number ≤ fuel
    → IsWritten data_ off number room (encode_loop fuel data_ off number)
unfolding encode_loop
encode_loop-IsWritten zero fuel data_ off number small h f =
    IsWritten-zero fuel data_ off number 0 (omega arith)
encode_loop-IsWritten (suc room) zero data_ off number small h f =
    IsWritten-zero 0 data_ off number (suc room) (omega arith)
encode_loop-IsWritten (suc room) (suc fuel) data_ off number small h f =
    elim (Bool-cases (number == 0)) [
      | inl done ↦ IsWritten-zero (suc fuel) data_ off number (suc room) (ground arith)
      | inr more ↦
          rw (more, encode_loop)
            (IsWritten-suc data_ off number room _ (omega arith) (
              encode_loop-IsWritten room fuel (put_nibble data_ off number) (off + 1) (number / 16)
                (omega (arith, pow-suc 16 room)) (omega (arith, length-put_nibble data_ off number))
                (ground arith)))
    ]

-- What encode_int_internal leaves: `digits` nibbles of the number, and one less in the first.
pub record IsCode (number room : ℕ) (out : Bytes × ℕ) : Type 0 where
  pub digits : ℕ
  pub some_digit : 1 ≤ digits
  pub fits : digits ≤ room
  pub used : out.1 ≡ digits / 2 + 1
  pub inside : out.1 ≤ length out.0
  pub first : nibble out.0 0 ≡ digits - 1
  pub value : read out.0 1 digits 0 ≡ number

-- The first byte is one more write of a nibble.
encode_int_internal_lem :
    (size number : ℕ)
    → let out = encode_loop number (replicate (size + 1) 0) 1 number in
      encode_int_internal size number
      ≡ (put_nibble out.0 0 (if ltb 2 out.1 then out.1 - 2 else 0), (out.1 + 1) / 2)
unfolding encode_int_internal put_nibble
encode_int_internal_lem size number = refl

module _ (size number : ℕ) (pos : 1 ≤ size) (room : 2 * size ≤ 16)
    (small : number < 16 ^ (2 * size)) where
  written :
      IsWritten
        (replicate (size + 1) 0)
        1
        number
        (2 * size)
        (encode_loop number (replicate (size + 1) 0) 1 number)
  written =
      encode_loop-IsWritten (2 * size) number (replicate (size + 1) 0) 1 number small
        (omega (arith, length-replicate (size + 1) (◌+◌ 0 0))) (omega arith)

  abbrev loop_out : Bytes × ℕ
  loop_out = encode_loop number (replicate (size + 1) 0) 1 number

  abbrev count_less_one : ℕ
  count_less_one = if ltb 2 loop_out.1 then loop_out.1 - 2 else 0

  code_nibble :
      (p : ℕ)
      → nibble (put_nibble loop_out.0 0 count_less_one) p
        ≡ (if 0 == p then count_less_one % 16 else nibble loop_out.0 p)
  code_nibble p =
      nibble-put_nibble loop_out.0 0 count_less_one p
        (omega (arith, written.size, length-replicate (size + 1) (◌+◌ 0 0)))

  code_read : (n : ℕ) → read (put_nibble loop_out.0 0 count_less_one) 1 n 0 ≡ read loop_out.0 1 n 0
  code_read n = read_ext _ loop_out.0 1 n 0 (λ p h k. ground (arith, code_nibble p))

  IsCode-of_zero : number ≡ 0 → IsCode number (2 * size) (encode_int_internal size number)
  IsCode-of_zero e =
      let start : loop_out ≡ (replicate (size + 1) 0, 1) =
        ap (λ n. encode_loop number (replicate (size + 1) 0) 1 n) e
        ∙ encode_loop-zero number (replicate (size + 1) 0) 1 in
      rw encode_int_internal_lem (record {
        digits = 1;
        some_digit = omega arith;
        fits = omega arith;
        used = ground (arith, start);
        inside = ground (
          arith,
          start,
          length-put_nibble loop_out.0 0 count_less_one,
          written.size,
          length-replicate (size + 1) (◌+◌ 0 0),
        );
        first = ground (arith, start, code_nibble 0);
        value = code_read 1 ∙ ground (arith, start, e, get_or-replicate (size + 1) 0 (◌+◌ 0 0));
      })

  IsCode-of_positive : number ≢ 0 → IsCode number (2 * size) (encode_int_internal size number)
  IsCode-of_positive n =
      let one : 0 < written.count = written.needed n in
      rw encode_int_internal_lem (record {
        digits = written.count;
        some_digit = one;
        fits = written.fits;
        used = omega (arith, written.last);
        inside = omega (
          arith,
          length-put_nibble loop_out.0 0 count_less_one,
          written.size,
          written.last,
          written.fits,
          length-replicate (size + 1) (◌+◌ 0 0),
        );
        first = ground (arith, code_nibble 0, written.last, written.fits);
        value = code_read written.count ∙ written.value;
      })

  pub encode_int_internal-IsCode : IsCode number (2 * size) (encode_int_internal size number)
  encode_int_internal-IsCode = elim (ℕ_discrete number 0) [
    | yes e ↦ IsCode-of_zero e
    | no n ↦ IsCode-of_positive n
  ]

-- What a round of the decoding loop makes of the number so far.
digit_added :
    (width : ℕ) (data_ : Bytes) (n acc : ℕ)
    → acc * 16 < 2 ^ width
    → let byte = get_or data_ (suc n / 2) 0 in
      (if bit_and (suc n) 1 == 1
        then bit_or (acc * 2 ^ 4 % 2 ^ width) (bit_and byte 0x0f)
        else bit_or (acc * 2 ^ 4 % 2 ^ width) (bit_and byte 0xf0 / 2 ^ 4))
      ≡ acc * 16 + nibble data_ (1 + n)
digit_added width data_ n acc h =
    let byte = get_or data_ (suc n / 2) 0 in
    let here : nibble data_ (1 + n) ≡ nibble data_ (suc n) = ap (nibble data_) (omega arith) in
    rw
      (
        here,
        mod-eq_of_lt h,
        bit_and-one (suc n),
        bit_and_0xf byte,
        bit_and_0xf0 byte,
        bit_or_high 4 acc (byte % 16) (omega arith),
        bit_or_high 4 acc (byte / 16 % 16 * 16 / 16) (omega arith),
      )
      (ground arith)

scaled : (acc nib p w : ℕ) → nib < 16 → (acc + 1) * (p * 16) ≤ w → (acc * 16 + nib + 1) * p ≤ w
scaled acc nib p w small h =
    let fewer : nib + 1 ≤ 16 = omega arith in omega (arith, mul-le-mul_right p fewer)

room_left :
    (acc nib n w : ℕ) → nib < 16 → (acc + 1) * 16 ^ suc n ≤ w → (acc * 16 + nib + 1) * 16 ^ n ≤ w
room_left acc nib n w small h = scaled acc nib (16 ^ n) w small (rw pow-suc at h)

digit_room : (acc n w : ℕ) → (acc + 1) * 16 ^ suc n ≤ w → acc * 16 < w
digit_room acc n w h = grind (arith, pow-suc 16 n, one-le-pow n 16)

-- No shift of the decoding loop loses a bit while the nibbles to come have room.
decode_loop-read :
    (width : ℕ) (data_ : Bytes) (n acc : ℕ)
    → (acc + 1) * 16 ^ n ≤ 2 ^ width
    → decode_loop width data_ n acc ≡ read data_ 1 n acc
unfolding decode_loop
decode_loop-read width data_ zero acc h = refl
decode_loop-read width data_ (suc n) acc h =
    ap (decode_loop width data_ n) (digit_added width data_ n acc (digit_room acc n (2 ^ width) h))
    ∙ decode_loop-read width data_ n (acc * 16 + nibble data_ (1 + n))
        (room_left acc (nibble data_ (1 + n)) n (2 ^ width) (ground arith) h)

-- Decoding at the start of the bytes that a code takes gives the number and their count.
pub decode_int-IsCode :
    (width room number : ℕ) (out : Bytes × ℕ) (rest : Bytes)
    → 16 ^ room ≤ 2 ^ width
    → IsCode number room out
    → decode_int_internal width room (take out.1 out.0 ++ rest) 0 ≡ some (number, out.1)
unfolding decode_int_internal
decode_int-IsCode width room number out rest wide c =
    let e = take out.1 out.0 ++ rest in
    let taken : length (take out.1 out.0) ≡ out.1 =
      omega (arith, length-take out.1 out.0, c.inside) in
    let long : out.1 ≤ length e = omega (arith, length-append (take out.1 out.0) rest) in
    let nibbles : bit_and (get_or e 0 0) 0xf0 / 2 ^ 4 + 1 ≡ c.digits =
      ground (
        arith,
        bit_and_0xf0 (get_or e 0 0),
        kept 0 (omega (arith, c.used)),
        c.first,
        c.some_digit,
      ) in
    rw
      (
        nibbles,
        decode_loop-read width e c.digits 0 (omega (arith, pow_room)),
        read_ext e out.0 1 c.digits 0 (λ p h k. kept p (omega (arith, c.used))),
        c.value,
      )
      (ground (arith, c.used, c.fits, long))
  where
    kept : (p : ℕ) → p / 2 < out.1 → nibble (take out.1 out.0 ++ rest) p ≡ nibble out.0 p
    kept p h = ground (
      arith,
      get_or-append (take out.1 out.0) rest (p / 2) 0,
      get_or-take out.1 out.0 (p / 2) 0,
      length-take out.1 out.0,
      c.inside,
    )

    pow_room : 16 ^ c.digits ≤ 2 ^ width
    pow_room = le_trans (pow-le-pow_right (omega arith) c.fits) wide
