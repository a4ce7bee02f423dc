-- ===== src/Tagging/TagCode.antt =====
-- evtag_encode_tag against decode_tag_internal.
use native.Mathlib.Nat.{pow-suc, add_comm, mod-eq_of_lt, mul-le-mul_right}
use native.Mathlib.Numerals.{towards_suc}
use native.Mathlib.Decide.{dec_lt}
use libevent_linux.Prelude.{
  ℕ, zero, suc, ◌+◌, ◌*◌, ◌/◌, ◌%◌, ◌^◌, bit_and, ◌≤◌, ◌<◌, ◌≡◌, ◌≢◌, ◌↔◌, refl, ap, ap₂, ◌∙◌, [],
  ◌∷◌, ◌++◌, length, take, length-append, take-min-length, false, ◌==◌, if◌then◌else◌, leb,
  Bool-cases, inl, inr, arith,
}
use libevent_linux.Prelude.Bits.{bit_and_0x7f, bit_and_0x80, bit_or_low}
use libevent_linux.Tagging.{
  Bytes, decoded, overread, encode_tag_loop, decode_tag_loop, decode_tag_internal,
}

pow-add-seven : (s : ℕ) → 2 ^ (s + 7) ≡ 128 * 2 ^ s
pow-add-seven s = simp towards_suc (omega (arith, pow-suc 2 s))

-- One round of decoding undoes one round of encoding.
decode_round :
    (more : ℕ) (window : Bytes) (shift number count tag len : ℕ)
    → more < 2
    → shift ≤ 28
    → number < 2 ^ shift
    → number + tag * 2 ^ shift < 2 ^ 32
    → decode_tag_loop (suc len) ((tag % 128 + more * 128) ∷ window) shift number count ≡ (
        if more == 0
        then decoded (number + tag % 128 * 2 ^ shift) (count + 1)
        else decode_tag_loop len window (shift + 7) (number + tag % 128 * 2 ^ shift) (count + 1))
unfolding decode_tag_loop
decode_round more window shift number count tag len m s low fits =
    rw
      (
        lower_bits,
        high_bit,
        mod-eq_of_lt below,
        bit_or_low shift number (tag % 128) low,
        add_comm (tag % 128 * 2 ^ shift) number,
      )
      (elim (Bool-cases (leb 28 shift)) [
        | inl top ↦
            let e : shift ≡ 28 = ground arith in
            let size : 2 ^ shift ≡ 2 ^ 28 = ap (λ k. 2 ^ k) e in
            let little : tag % 128 < 16 =
              omega (arith, below, ap (λ (t : ℕ). tag % 128 * t) size) in
            ground arith
        | inr inner ↦ ground arith
      ])
  where
    lower_bits : bit_and (tag % 128 + more * 128) 0x7f ≡ tag % 128
    lower_bits = omega (arith, bit_and_0x7f (tag % 128 + more * 128))

    high_bit : bit_and (tag % 128 + more * 128) 0x80 ≡ more * 128
    high_bit = omega (arith, bit_and_0x80 (tag % 128 + more * 128))

    part : tag % 128 ≤ tag
    part = omega arith

    below : tag % 128 * 2 ^ shift < 2 ^ 32
    below = omega (arith, mul-le-mul_right (2 ^ shift) part)

encode_tag_loop-last :
    (fuel tag : ℕ) → tag < 128 → encode_tag_loop fuel tag ≡ (tag % 128 + 0 * 128) ∷ []
unfolding encode_tag_loop
encode_tag_loop-last zero tag h = ap (λ b. b ∷ []) (omega (arith, bit_and_0x7f tag))
encode_tag_loop-last (suc fuel) tag h = ground (arith, bit_and_0x7f tag)

encode_tag_loop-more :
    (fuel tag : ℕ)
    → 128 ≤ tag
    → encode_tag_loop (suc fuel) tag ≡ (tag % 128 + 1 * 128) ∷ encode_tag_loop fuel (tag / 128)
unfolding encode_tag_loop
encode_tag_loop-more fuel tag h =
    rw (bit_and_0x7f tag, bit_or_low 7 (tag % 128) 1 (omega arith)) (ground arith)

-- What a round leaves to the next.
next_low : (number tag p : ℕ) → number < p → number + tag % 128 * p < 128 * p
next_low number tag p h =
    let digit : tag % 128 ≤ 127 = omega arith in omega (arith, mul-le-mul_right p digit)

next_value : (number tag p : ℕ) → number + tag % 128 * p + tag / 128 * (128 * p) ≡ number + tag * p
next_value number tag p =
    let parts : tag ≡ 128 * (tag / 128) + tag % 128 = omega arith in
    omega (arith, ap (λ (t : ℕ). t * p) parts)

last_byte :
    (room fuel tag shift number count len : ℕ) (rest : Bytes)
    → tag < 128
    → shift + 7 * room ≡ 28
    → number < 2 ^ shift
    → number + tag * 2 ^ shift < 2 ^ 32
    → length (encode_tag_loop fuel tag) ≤ len
    → decode_tag_loop len (take (suc room) (encode_tag_loop fuel tag ++ rest)) shift number count
      ≡ decoded (number + tag * 2 ^ shift) (count + length (encode_tag_loop fuel tag))
last_byte room fuel tag shift number count zero rest h s low fits long =
    absurd (omega (arith, ap length (encode_tag_loop-last fuel tag h)))
last_byte room fuel tag shift number count (suc len) rest h s low fits long =
    let same : tag % 128 ≡ tag = omega arith in
    rw
      (
        encode_tag_loop-last fuel tag h,
        decode_round 0 (take room rest) shift number count tag len (omega arith) (omega arith) low
            fits,
        same,
      )
      refl

-- The loop over a code reads the tag and stops at the code's end, if `room` bytes more than one
-- may be read.
decode_tag_loop-encode :
    (room fuel tag shift number count len : ℕ) (rest : Bytes)
    → shift + 7 * room ≡ 28
    → tag ≤ fuel
    → number < 2 ^ shift
    → number + tag * 2 ^ shift < 2 ^ 32
    → length (encode_tag_loop fuel tag) ≤ len
    → decode_tag_loop len (take (suc room) (encode_tag_loop fuel tag ++ rest)) shift number count
      ≡ decoded (number + tag * 2 ^ shift) (count + length (encode_tag_loop fuel tag))
decode_tag_loop-encode room zero tag shift number count len rest s f low fits long =
    last_byte room 0 tag shift number count len rest (omega arith) s low fits long
decode_tag_loop-encode zero (suc fuel) tag shift number count len rest s f low fits long =
    let e : shift ≡ 28 = omega arith in
    let size : 2 ^ shift ≡ 2 ^ 28 = ap (λ k. 2 ^ k) e in
    last_byte 0 (suc fuel) tag shift number count len rest
      (omega (arith, ap (λ (t : ℕ). tag * t) size)) s low fits long
decode_tag_loop-encode (suc room) (suc fuel) tag shift number count zero rest s f low fits long =
    elim (dec_lt tag 128) [
      | yes h ↦ last_byte (suc room) (suc fuel) tag shift number count 0 rest h s low fits long
      | no h ↦ absurd (omega (arith, ap length (encode_tag_loop-more fuel tag (omega arith))))
    ]
decode_tag_loop-encode (suc room) (suc fuel) tag shift number count (suc len) rest s f low fits
      long =
    elim (dec_lt tag 128) [
      | yes h ↦
          last_byte (suc room) (suc fuel) tag shift number count (suc len) rest h s low fits long
      | no h ↦
          let cont = encode_tag_loop-more fuel tag (omega arith) in
          let code = encode_tag_loop fuel (tag / 128) in
          let wide = pow-add-seven shift in
          let total = ap (λ (t : ℕ). tag / 128 * t) wide in
          let value = next_value number tag (2 ^ shift) in
          let number' = number + tag % 128 * 2 ^ shift in
          let again =
            decode_tag_loop-encode room fuel (tag / 128) (shift + 7) number' (count + 1) len rest
              (omega arith) (omega arith) (omega (arith, wide, next_low number tag (2 ^ shift) low))
              (omega (arith, total, value)) (omega (arith, ap length cont)) in
          rw
            (
              cont,
              decode_round 1 (take (suc room) (code ++ rest)) shift number count tag len
                  (omega arith) (omega arith) low fits,
            )
            (again ∙ ap₂ decoded (omega (arith, total, value)) (omega arith))
    ]

length-encode_tag_loop : (fuel tag : ℕ) → 1 ≤ length (encode_tag_loop fuel tag)
unfolding encode_tag_loop
length-encode_tag_loop zero tag = omega arith
length-encode_tag_loop (suc fuel) tag = ground arith

-- Reading at the start of a tag's code gives the tag and the length of the code.
pub decode_tag_internal-encode :
    (tag : ℕ) (rest : Bytes)
    → tag < 2 ^ 32
    → decode_tag_internal (encode_tag_loop tag tag ++ rest)
      ≡ decoded tag (length (encode_tag_loop tag tag))
unfolding decode_tag_internal
decode_tag_internal-encode tag rest small =
    let code = encode_tag_loop tag tag in
    let long = length-append code rest in
    let loop =
      decode_tag_loop-encode 4 tag tag 0 0 0 (length (code ++ rest)) rest (omega arith)
        (omega arith) (omega arith) (omega arith) (omega (arith, long)) in
    let some_byte : (length (code ++ rest) == 0) ≡ false =
      ground (arith, long, length-encode_tag_loop tag tag) in
    rw (some_byte, take-min-length (code ++ rest) 5)
      (loop ∙ ap₂ decoded (omega arith) (omega arith))

-- Five bytes with the continuation bit, the last with at most four bits of the tag, and a sixth.
abbrev pub IsContinued : ℕ → Type 0
IsContinued b = bit_and b 0x80 ≢ 0

abbrev pub IsOverlong : Bytes → Type 0
IsOverlong (a ∷ b ∷ c ∷ d ∷ e ∷ f ∷ rest) =
    IsContinued a
    × IsContinued b
    × IsContinued c
    × IsContinued d
    × IsContinued e
    × (bit_and e 0x7f ≤ 15)
IsOverlong _ = ⊥

-- decode_tag_internal reads past the five bytes that were made contiguous exactly if five bytes
-- with the continuation bit, the fifth with at most four low bits, are followed by a sixth byte.
pub decode_tag_internal-overread :
    (evbuf : Bytes) → (decode_tag_internal evbuf ≡ overread) ↔ IsOverlong evbuf
unfolding decode_tag_internal decode_tag_loop
decode_tag_internal-overread [] = ground arith
decode_tag_internal-overread (a ∷ []) = ground arith
decode_tag_internal-overread (a ∷ b ∷ []) = ground arith
decode_tag_internal-overread (a ∷ b ∷ c ∷ []) = ground arith
decode_tag_internal-overread (a ∷ b ∷ c ∷ d ∷ []) = ground arith
decode_tag_internal-overread (a ∷ b ∷ c ∷ d ∷ e ∷ []) = ground arith
decode_tag_internal-overread (a ∷ b ∷ c ∷ d ∷ e ∷ f ∷ rest) = ground arith
