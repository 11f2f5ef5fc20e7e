-- ===== src/Overflow/Exact.antt =====
-- int_overflow.h: the checks against the integers.
use nari.Prelude.{
  ℕ, suc, ◌∙◌, ◌+◌, ◌*◌, ◌%◌, ◌^◌, ◌≤◌, ◌≡◌, arith, Bool, true, not, Option, none, some, ltb, leb,
  Bool-cases, inl, inr, if◌then◌else◌,
}
use native.Mathlib.Nat.{mul-le-mul}
use nari.Prelude.Int.{ℤ, pos, negsuc, sub_ℕ, ◌+ℤ◌, leb_ℤ, pos_part, neg_part}
use nari.Bytecode.Chunk.{fits_int48}
use nari.Overflow.Words.{◌*ℤ◌, is_i64, to_u64, to_i64, upper_half}
use nari.Overflow.Checked.{
  negate, add_overflow_i64, sub_overflow_i64, accept_i48, mul_overflow_i48_msvc,
  mul_overflow_i48_arm, mul_overflow_i48_gcc,
}

-- The sum and its overflow, as the builtins of GCC and Clang give them.
abbrev pub builtin_overflow : ℤ → ℤ × Bool
builtin_overflow p = (to_i64 (to_u64 p), not (is_i64 p))

-- For 64-bit integers, the fallback for MSVC computes the sum as it wraps and the overflow as the
-- builtins of GCC and Clang do.
pub add_overflow_i64_lem :
    (a b : ℤ) → is_i64 a ≡ true → is_i64 b ≡ true → add_overflow_i64 a b ≡ builtin_overflow (a +ℤ b)
unfolding add_overflow_i64 ◌+ℤ◌
add_overflow_i64_lem (pos a) (pos b) ha hb = ground arith
add_overflow_i64_lem (pos a) (negsuc b) ha hb = ground arith
add_overflow_i64_lem (negsuc a) (pos b) ha hb = ground arith
add_overflow_i64_lem (negsuc a) (negsuc b) ha hb = ground arith

-- For 64-bit integers, the fallback for MSVC computes the difference as it wraps and the overflow as
-- the builtins of GCC and Clang do.
pub sub_overflow_i64_lem :
    (a b : ℤ)
    → is_i64 a ≡ true
    → is_i64 b ≡ true
    → sub_overflow_i64 a b ≡ builtin_overflow (a +ℤ negate b)
unfolding sub_overflow_i64 ◌+ℤ◌
sub_overflow_i64_lem (pos a) (pos b) ha hb = ground arith
sub_overflow_i64_lem (pos a) (negsuc b) ha hb = ground arith
sub_overflow_i64_lem (negsuc a) (pos b) ha hb = ground arith
sub_overflow_i64_lem (negsuc a) (negsuc b) ha hb = ground arith

-- A product of 64-bit integers has less than 127 bits and a sign.
abbrev IsWide : ℤ → Type 0
IsWide p = (pos_part p ≤ 2 ^ 126) × (neg_part p ≤ 2 ^ 126)

abbrev pub in_int48 : ℤ → Option ℤ
in_int48 p = if fits_int48 p then some p else none

abbrev msvc : ℤ → Option ℤ
msvc p =
    let low = to_u64 p in
    let carry = if leb (2 ^ 64) (low + 2 ^ 47) then 1 else 0 in
    accept_i48 low ((low + 2 ^ 47) % 2 ^ 64) ((upper_half p + carry) % 2 ^ 64)

abbrev gcc : ℤ → Option ℤ
gcc p =
    let low = to_u64 p in
    let product_overflows = if is_i64 p then 0 else 1 in
    let sum_overflows = if leb (2 ^ 64) (low + 2 ^ 47) then 1 else 0 in
    accept_i48 low ((low + 2 ^ 47) % 2 ^ 64) (product_overflows + sum_overflows)

abbrev arm : ℤ → Option ℤ
arm p =
    let low = to_u64 p in
    let adc_low = (low + 2 ^ 47) % 2 ^ 64 in
    accept_i48 low adc_low ((upper_half p + (if ltb adc_low low then 1 else 0)) % 2 ^ 64)

msvc-in_int48 : (p : ℤ) → IsWide p → msvc p ≡ in_int48 p
msvc-in_int48 (pos n) (low, high) = ground arith
msvc-in_int48 (negsuc n) (low, high) = ground arith

arm-msvc : (p : ℤ) → arm p ≡ msvc p
arm-msvc (pos n) = ground arith
arm-msvc (negsuc n) = ground arith

gcc_lem : (p : ℤ) → gcc p ≡ (if leb_ℤ (pos 0) p then in_int48 p else none)
gcc_lem (pos n) = ground arith
gcc_lem (negsuc n) = ground arith

IsWide-sub_ℕ : (x y : ℕ) → x ≤ 2 ^ 126 → y ≤ 2 ^ 126 → IsWide (sub_ℕ x y)
IsWide-sub_ℕ x y hx hy = elim (Bool-cases (leb y x)) [
  | inl le ↦ rw le (omega arith, omega arith)
  | inr gt ↦ rw gt (omega arith, omega arith)
]

-- Two magnitudes of 63 bits.
mul_narrow : (x y : ℕ) → x ≤ 2 ^ 63 → y ≤ 2 ^ 63 → x * y ≤ 2 ^ 126
mul_narrow x y hx hy = mul-le-mul hx hy

IsWide-mul : (a b : ℤ) → is_i64 a ≡ true → is_i64 b ≡ true → IsWide (a *ℤ b)
unfolding ◌*ℤ◌
IsWide-mul (pos a) (pos b) ha hb =
    let bound = mul_narrow a b (ground arith) (ground arith) in
    IsWide-sub_ℕ _ _ (omega (arith, bound)) (omega (arith, bound))
IsWide-mul (pos a) (negsuc b) ha hb =
    let bound = mul_narrow a (suc b) (ground arith) (ground arith) in
    IsWide-sub_ℕ _ _ (omega (arith, bound)) (omega (arith, bound))
IsWide-mul (negsuc a) (pos b) ha hb =
    let bound = mul_narrow (suc a) b (ground arith) (ground arith) in
    IsWide-sub_ℕ _ _ (omega (arith, bound)) (omega (arith, bound))
IsWide-mul (negsuc a) (negsuc b) ha hb =
    let bound = mul_narrow (suc a) (suc b) (ground arith) (ground arith) in
    IsWide-sub_ℕ _ _ (omega (arith, bound)) (omega (arith, bound))

-- The forms for MSVC give the product of two 64-bit integers if it fits into 48 bits with a sign, and
-- else turn to a double.
pub mul_overflow_i48_msvc_lem :
    (a b : ℤ)
    → is_i64 a ≡ true
    → is_i64 b ≡ true
    → (mul_overflow_i48_msvc a b ≡ in_int48 (a *ℤ b))
      × (mul_overflow_i48_arm a b ≡ in_int48 (a *ℤ b))
unfolding mul_overflow_i48_msvc mul_overflow_i48_arm
mul_overflow_i48_msvc_lem a b ha hb =
    let exact = msvc-in_int48 (a *ℤ b) (IsWide-mul a b ha hb) in (exact, arm-msvc (a *ℤ b) ∙ exact)

-- The form for GCC and Clang gives the product if it is not negative and fits into 48 bits with a sign;
-- it turns to a double for every product that is negative.
pub mul_overflow_i48_gcc_lem :
    (a b : ℤ)
    → mul_overflow_i48_gcc a b ≡ (if leb_ℤ (pos 0) (a *ℤ b) then in_int48 (a *ℤ b) else none)
unfolding mul_overflow_i48_gcc
mul_overflow_i48_gcc_lem a b = gcc_lem (a *ℤ b)
