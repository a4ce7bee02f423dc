-- ===== src/Prelude/Bits.antt =====
-- `&` with a mask and `|` of disjoint fields, as arithmetic.
use Prim.Native.Nat.{
  ℕ, zero, suc, ◌+◌, ◌*◌, ◌/◌, ◌%◌, ◌^◌, ◌≤◌, ◌<◌, min, max, bit_and, bit_or, digits,
  bit_and-bitwise, bit_or-bitwise,
}
use mathlib.Core.Path.{◌≡◌, refl, ap}
use native.Mathlib.Nat.{pow-suc}
use native.Mathlib.Omega.{arith}

-- More digits than the number has change nothing.
digits_enough :
    (f : ℕ → ℕ) (g : ℕ → ℕ → ℕ) (n m a b : ℕ) → a ≤ n → a ≤ m → digits f g n a b ≡ digits f g m a b
digits_enough f g zero zero a b p q = refl
digits_enough f g zero (suc m) zero b p q = refl
digits_enough f g zero (suc m) (suc a) b p q = absurd (omega arith)
digits_enough f g (suc n) zero zero b p q = refl
digits_enough f g (suc n) zero (suc a) b p q = absurd (omega arith)
digits_enough f g (suc n) (suc m) zero b p q = refl
digits_enough f g (suc n) (suc m) (suc a) b p q =
    omega (arith, digits_enough f g n m (suc a / 2) (b / 2) (omega arith) (omega arith))

pub zero-bit_or : (b : ℕ) → bit_or 0 b ≡ b
zero-bit_or b = bit_or-bitwise 0 b

zero-bit_and : (b : ℕ) → bit_and 0 b ≡ 0
zero-bit_and b = bit_and-bitwise 0 b

pub bit_or_halves : (a b : ℕ) → bit_or a b ≡ bit_or (a / 2) (b / 2) * 2 + max (a % 2) (b % 2)
bit_or_halves zero b = omega (arith, zero-bit_or b, zero-bit_or (b / 2))
bit_or_halves (suc a) b = omega (
  arith,
  bit_or-bitwise (suc a) b,
  bit_or-bitwise (suc a / 2) (b / 2),
  digits_enough (λ y. y) max a (suc a / 2) (suc a / 2) (b / 2) (omega arith) (omega arith),
)

pub bit_and_halves : (a b : ℕ) → bit_and a b ≡ bit_and (a / 2) (b / 2) * 2 + min (a % 2) (b % 2)
bit_and_halves zero b = omega (arith, zero-bit_and b, zero-bit_and (b / 2))
bit_and_halves (suc a) b = omega (
  arith,
  bit_and-bitwise (suc a) b,
  bit_and-bitwise (suc a / 2) (b / 2),
  digits_enough (λ y. 0) min a (suc a / 2) (suc a / 2) (b / 2) (omega arith) (omega arith),
)

bit_or-zero_below : (n a : ℕ) → a ≤ n → bit_or a 0 ≡ a
bit_or-zero_below n zero h = refl
bit_or-zero_below zero (suc a) h = absurd (omega arith)
bit_or-zero_below (suc n) (suc a) h =
    omega (arith, bit_or_halves (suc a) 0, bit_or-zero_below n (suc a / 2) (omega arith))

pub bit_or-zero : (a : ℕ) → bit_or a 0 ≡ a
bit_or-zero a = bit_or-zero_below a a (omega arith)

bit_and-zero_below : (n a : ℕ) → a ≤ n → bit_and a 0 ≡ 0
bit_and-zero_below n zero h = refl
bit_and-zero_below zero (suc a) h = absurd (omega arith)
bit_and-zero_below (suc n) (suc a) h =
    omega (arith, bit_and_halves (suc a) 0, bit_and-zero_below n (suc a / 2) (omega arith))

pub bit_and-zero : (a : ℕ) → bit_and a 0 ≡ 0
bit_and-zero a = bit_and-zero_below a a (omega arith)

double_field : (q k : ℕ) → q * 2 ^ suc k ≡ 2 * (q * 2 ^ k)
double_field q k = omega (arith, ap (λ (t : ℕ). q * t) (pow-suc 2 k))

-- `r | (q << k)` is a sum when `r` fits `k` bits, in either order.
pub bit_or_low : (k r q : ℕ) → r < 2 ^ k → bit_or r (q * 2 ^ k) ≡ q * 2 ^ k + r
bit_or_low zero r q h = let e : r ≡ 0 = omega arith in rw (e, zero-bit_or) (omega arith)
bit_or_low (suc k) r q h = omega (
  arith,
  bit_or_halves r (q * 2 ^ suc k),
  double_field q k,
  pow-suc 2 k,
  ap (λ (t : ℕ). bit_or (r / 2) t) (half_field q k),
  bit_or_low k (r / 2) q (omega (arith, pow-suc 2 k)),
)
  where
    half_field : (q k : ℕ) → q * 2 ^ suc k / 2 ≡ q * 2 ^ k
    half_field q k = omega (arith, double_field q k)

pub bit_or_high : (k q r : ℕ) → r < 2 ^ k → bit_or (q * 2 ^ k) r ≡ q * 2 ^ k + r
bit_or_high zero q r h = let e : r ≡ 0 = omega arith in rw (e, bit_or-zero) (omega arith)
bit_or_high (suc k) q r h = omega (
  arith,
  bit_or_halves (q * 2 ^ suc k) r,
  double_field q k,
  pow-suc 2 k,
  ap (λ (t : ℕ). bit_or t (r / 2)) (half_field q k),
  bit_or_high k q (r / 2) (omega (arith, pow-suc 2 k)),
)
  where
    half_field : (q k : ℕ) → q * 2 ^ suc k / 2 ≡ q * 2 ^ k
    half_field q k = omega (arith, double_field q k)

-- Masks of low bits, each from the next narrower one.
pub bit_and-one : (a : ℕ) → bit_and a 1 ≡ a % 2
bit_and-one a = omega (arith, bit_and_halves a 1, bit_and-zero (a / 2))

bit_and_7 : (a : ℕ) → bit_and a 7 ≡ a % 8
bit_and_7 a = omega (arith, bit_and_halves a 7, bit_and_halves (a / 2) 3, bit_and-one (a / 2 / 2))

pub bit_and_0xf : (a : ℕ) → bit_and a 0xf ≡ a % 16
bit_and_0xf a = omega (arith, bit_and_halves a 0xf, bit_and_7 (a / 2))

pub bit_and_0x7f : (a : ℕ) → bit_and a 0x7f ≡ a % 128
bit_and_0x7f a = omega (
  arith,
  bit_and_halves a 0x7f,
  bit_and_halves (a / 2) 0x3f,
  bit_and_halves (a / 2 / 2) 0x1f,
  bit_and_0xf (a / 2 / 2 / 2),
)

pub bit_and_0xff : (a : ℕ) → bit_and a 0xff ≡ a % 256
bit_and_0xff a = omega (arith, bit_and_halves a 0xff, bit_and_0x7f (a / 2))

-- The high half of a byte, in place.
pub bit_and_0xf0 : (a : ℕ) → bit_and a 0xf0 ≡ a / 16 % 16 * 16
bit_and_0xf0 a = omega (
  arith,
  bit_and_halves a 0xf0,
  bit_and_halves (a / 2) 0x78,
  bit_and_halves (a / 2 / 2) 0x3c,
  bit_and_halves (a / 2 / 2 / 2) 0x1e,
  bit_and_0xf (a / 2 / 2 / 2 / 2),
)

bit_and_16 : (a : ℕ) → bit_and a 0x10 ≡ a / 16 % 2 * 16
bit_and_16 a = omega (
  arith,
  bit_and_halves a 0x10,
  bit_and_halves (a / 2) 0x8,
  bit_and_halves (a / 2 / 2) 0x4,
  bit_and_halves (a / 2 / 2 / 2) 0x2,
  bit_and-one (a / 2 / 2 / 2 / 2),
)

-- The continuation bit of a tag's byte.
pub bit_and_0x80 : (a : ℕ) → bit_and a 0x80 ≡ a / 128 % 2 * 128
bit_and_0x80 a = omega (
  arith,
  bit_and_halves a 0x80,
  bit_and_halves (a / 2) 0x40,
  bit_and_halves (a / 2 / 2) 0x20,
  bit_and_16 (a / 2 / 2 / 2),
)
