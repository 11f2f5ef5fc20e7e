-- ===== src/Overflow/Words.antt =====
-- int_overflow.h: 64-bit words. A uint64_t is a number below 2^64; an int64_t is an integer in its range.
use nari.Prelude.{ℕ, ◌+◌, ◌-◌, ◌*◌, ◌/◌, ◌%◌, ◌^◌, Bool, ltb, if◌then◌else◌}
use nari.Prelude.Int.{ℤ, pos, negsuc, pos_part, neg_part, sub_ℕ}

infixl 70 ◌*ℤ◌
unfoldable pub ◌*ℤ◌ : ℤ → ℤ → ℤ
a *ℤ b =
    sub_ℕ (pos_part a * pos_part b + neg_part a * neg_part b)
      (pos_part a * neg_part b + neg_part a * pos_part b)

-- `numeric_limits<int64_t>`.
abbrev pub is_i64 : ℤ → Bool
is_i64 (pos n) = ltb n (2 ^ 63)
is_i64 (negsuc n) = ltb n (2 ^ 63)

-- The conversion to uint64_t.
abbrev pub to_u64 : ℤ → ℕ
to_u64 (pos n) = n % 2 ^ 64
to_u64 (negsuc n) = 2 ^ 64 - 1 - n % 2 ^ 64

-- The conversion of a uint64_t to int64_t.
abbrev pub to_i64 : ℕ → ℤ
to_i64 n = if ltb n (2 ^ 63) then pos n else negsuc (2 ^ 64 - 1 - n)

-- The upper half of a product of 128 bits, as a uint64_t.
abbrev pub upper_half : ℤ → ℕ
upper_half (pos n) = n / 2 ^ 64 % 2 ^ 64
upper_half (negsuc n) = 2 ^ 64 - 1 - n / 2 ^ 64 % 2 ^ 64
