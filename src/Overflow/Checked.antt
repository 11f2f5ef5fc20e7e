-- ===== src/Overflow/Checked.antt =====
-- int_overflow.h: the checks on 64 bits, as compiled by MSVC, and the check on 48 bits.
use nari.Prelude.{
  ℕ, ◌+◌, ◌-◌, ◌/◌, ◌%◌, ◌^◌, Bool, ◌&&◌, ◌||◌, Option, none, some, ltb, leb, ◌==◌, if◌then◌else◌,
}
use nari.Prelude.Int.{ℤ, pos, negsuc, sub_ℕ, ◌+ℤ◌, ltb_ℤ}
use nari.Overflow.Words.{◌*ℤ◌, is_i64, to_u64, to_i64, upper_half}

abbrev pub negate : ℤ → ℤ
negate (pos n) = sub_ℕ 0 n
negate (negsuc n) = pos (n + 1)

abbrev pub max_i64 : ℤ
max_i64 = pos (2 ^ 63 - 1)

abbrev pub min_i64 : ℤ
min_i64 = negsuc (2 ^ 63 - 1)

-- The sum as it wraps, and whether it overflowed.
unfoldable pub add_overflow_i64 : ℤ → ℤ → ℤ × Bool
add_overflow_i64 a b = (
  to_i64 (to_u64 (a +ℤ b)),
  ltb_ℤ (pos 0) b && ltb_ℤ (max_i64 +ℤ negate b) a
      || ltb_ℤ b (pos 0) && ltb_ℤ a (min_i64 +ℤ negate b),
)

unfoldable pub sub_overflow_i64 : ℤ → ℤ → ℤ × Bool
sub_overflow_i64 a b = (
  to_i64 (to_u64 (a +ℤ negate b)),
  ltb_ℤ b (pos 0) && ltb_ℤ (max_i64 +ℤ b) a || ltb_ℤ (pos 0) b && ltb_ℤ a (min_i64 +ℤ b),
)

-- The last test of `mul_overflow_i48`: `none` stands for the product as a double. The or of two words
-- is 0 where both are.
abbrev pub accept_i48 : ℕ → ℕ → ℕ → Option ℤ
accept_i48 low adc_low high = if adc_low / 2 ^ 48 == 0 && high == 0 then some (to_i64 low) else none

-- With the intrinsics `_mul128` and `_addcarry_u64`.
unfoldable pub mul_overflow_i48_msvc : ℤ → ℤ → Option ℤ
mul_overflow_i48_msvc a b =
    let low = to_u64 (a *ℤ b) in
    let carry = if leb (2 ^ 64) (low + 2 ^ 47) then 1 else 0 in
    let high = (upper_half (a *ℤ b) + carry) % 2 ^ 64 in
    accept_i48 low ((low + 2 ^ 47) % 2 ^ 64) high

-- With the intrinsic `__mulh`.
unfoldable pub mul_overflow_i48_arm : ℤ → ℤ → Option ℤ
mul_overflow_i48_arm a b =
    let low = to_u64 (a *ℤ b) in
    let adc_low = (low + 2 ^ 47) % 2 ^ 64 in
    let high = (upper_half (a *ℤ b) + (if ltb adc_low low then 1 else 0)) % 2 ^ 64 in
    accept_i48 low adc_low high

-- With the builtins of GCC and Clang: `high` counts the overflow of the product and of the sum.
unfoldable pub mul_overflow_i48_gcc : ℤ → ℤ → Option ℤ
mul_overflow_i48_gcc a b =
    let low = to_u64 (a *ℤ b) in
    let product_overflows = if is_i64 (a *ℤ b) then 0 else 1 in
    let sum_overflows = if leb (2 ^ 64) (low + 2 ^ 47) then 1 else 0 in
    accept_i48 low ((low + 2 ^ 47) % 2 ^ 64) (product_overflows + sum_overflows)
