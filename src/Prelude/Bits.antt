-- ===== src/Prelude/Bits.antt =====
-- Bit operations at variables: masks on a byte by a table, and `|` of disjoint fields by induction.
use Prim.Native.Nat.{
  ℕ, zero, suc, ◌+◌, ◌*◌, ◌/◌, ◌%◌, ◌^◌, ◌≤◌, ◌<◌, max, min, digits, bit_and, bit_or,
  bit_or-bitwise, bit_and-bitwise,
}
use mathlib.Core.Path.{◌≡◌, refl, ap}
use mathlib.Core.Bool.{true, ◌&&◌}
use native.Mathlib.Omega.{arith}
use native.Mathlib.Nat.{pow-suc}
use nari.Prelude.Tests.{◌==◌, ==→eq, all_below, all_below_at}

byte_or_table : all_below 128 (λ b. bit_or b 0x80 == b + 128) ≡ true
unfolding all_below
byte_or_table = refl

byte_and_table :
    all_below 256 (λ b. (bit_and b 0x7f == b % 128) && (bit_and b 0x80 == b / 128 * 128)) ≡ true
unfolding all_below
byte_and_table = refl

byte_fe_table : all_below 256 (λ b. bit_and b 0xfe == b / 2 * 2) ≡ true
unfolding all_below
byte_fe_table = refl

pub set_high_bit : (b : ℕ) → b < 128 → bit_or b 0x80 ≡ b + 128
set_high_bit b h = ==→eq _ _ (all_below_at 128 _ b byte_or_table h)

pub low_seven : (b : ℕ) → b < 256 → bit_and b 0x7f ≡ b % 128
low_seven b h = let t = all_below_at 256 _ b byte_and_table h in ground arith

pub high_bit : (b : ℕ) → b < 256 → bit_and b 0x80 ≡ b / 128 * 128
high_bit b h = let t = all_below_at 256 _ b byte_and_table h in ground arith

pub all_but_lowest : (b : ℕ) → b < 256 → bit_and b 0xfe ≡ b / 2 * 2
all_but_lowest b h = ==→eq _ _ (all_below_at 256 _ b byte_fe_table h)

-- The recursion on binary digits that the native operations stand for; any two sufficient fuels
-- agree.
module _ (z : ℕ → ℕ) (f : ℕ → ℕ → ℕ) where
  digits_enough : (n m a b : ℕ) → a ≤ n → a ≤ m → digits z f n a b ≡ digits z f m a b
  digits_enough zero zero a b p q = refl
  digits_enough zero (suc m) zero b p q = refl
  digits_enough zero (suc m) (suc a) b p q = absurd (omega arith)
  digits_enough (suc n) zero zero b p q = refl
  digits_enough (suc n) zero (suc a) b p q = absurd (omega arith)
  digits_enough (suc n) (suc m) zero b p q = refl
  digits_enough (suc n) (suc m) (suc a) b p q =
      omega (arith, digits_enough n m (suc a / 2) (b / 2) (omega arith) (omega arith))

pub zero-bit_or : (b : ℕ) → bit_or 0 b ≡ b
zero-bit_or b = bit_or-bitwise 0 b

zero-bit_and : (b : ℕ) → bit_and 0 b ≡ 0
zero-bit_and b = bit_and-bitwise 0 b

bit_or_digit : (a b : ℕ) → bit_or a b ≡ bit_or (a / 2) (b / 2) * 2 + max (a % 2) (b % 2)
bit_or_digit zero b = omega (arith, zero-bit_or b, zero-bit_or (b / 2))
bit_or_digit (suc a) b = omega (
  arith,
  bit_or-bitwise (suc a) b,
  bit_or-bitwise (suc a / 2) (b / 2),
  digits_enough (λ y. y) max a (suc a / 2) (suc a / 2) (b / 2) (omega arith) (omega arith),
)

bit_and_digit : (a b : ℕ) → bit_and a b ≡ bit_and (a / 2) (b / 2) * 2 + min (a % 2) (b % 2)
bit_and_digit zero b = omega (arith, zero-bit_and b, zero-bit_and (b / 2))
bit_and_digit (suc a) b = omega (
  arith,
  bit_and-bitwise (suc a) b,
  bit_and-bitwise (suc a / 2) (b / 2),
  digits_enough (λ y. 0) min a (suc a / 2) (suc a / 2) (b / 2) (omega arith) (omega arith),
)

with_zero : (n a : ℕ) → a ≤ n → (bit_or a 0 ≡ a) × (bit_and a 0 ≡ 0)
with_zero n zero h = (refl, refl)
with_zero zero (suc a) h = absurd (omega arith)
with_zero (suc n) (suc a) h =
    omega (
      arith,
      bit_or_digit (suc a) 0,
      bit_and_digit (suc a) 0,
      with_zero n (suc a / 2) (omega arith),
    )

-- The lowest bit, set and read.
pub bit_or-even_one : (n : ℕ) → bit_or (n * 2) 1 ≡ n * 2 + 1
bit_or-even_one n =
    let halved : n * 2 / 2 ≡ n = omega arith in
    omega (arith, rw halved at (bit_or_digit (n * 2) 1), with_zero n n (omega arith))

pub bit_and-one : (n : ℕ) → bit_and n 1 ≡ n % 2
bit_and-one n = omega (arith, bit_and_digit n 1, with_zero (n / 2) (n / 2) (omega arith))

double_field : (q k : ℕ) → q * 2 ^ suc k ≡ 2 * (q * 2 ^ k)
double_field q k = omega (arith, ap (λ (t : ℕ). q * t) (pow-suc 2 k))

-- `low | (high << k)` is a sum where `low` has `k` bits.
pub bit_or-field : (k low high : ℕ) → low < 2 ^ k → bit_or low (high * 2 ^ k) ≡ low + high * 2 ^ k
bit_or-field zero low high h = ground (arith, zero-bit_or (high * 2 ^ 0))
bit_or-field (suc k) low high h = ground (
  arith,
  bit_or_digit low (high * 2 ^ suc k),
  double_field high k,
  pow-suc 2 k,
  bit_or-field k (low / 2) high (omega arith),
)
