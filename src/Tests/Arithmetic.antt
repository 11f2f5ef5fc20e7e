-- ===== src/Tests/Arithmetic.antt =====
-- The checks of src/int_overflow.h at concrete integers.
use nari.Prelude.{◌≡◌, refl, if◌then◌else◌, none}
use nari.Prelude.Int.{pos, negsuc, ◌+ℤ◌, leb_ℤ}
use nari.Overflow.Words.{◌*ℤ◌}
use nari.Overflow.Checked.{
  negate, add_overflow_i64, sub_overflow_i64, mul_overflow_i48_msvc, mul_overflow_i48_arm,
  mul_overflow_i48_gcc,
}
use nari.Overflow.Exact.{
  builtin_overflow, in_int48, add_overflow_i64_lem, sub_overflow_i64_lem, mul_overflow_i48_msvc_lem,
  mul_overflow_i48_gcc_lem,
}

add_overflow_i64_lem_example :
    add_overflow_i64 (pos 9223372036854775807) (pos 1)
    ≡ builtin_overflow (pos 9223372036854775807 +ℤ pos 1)
add_overflow_i64_lem_example = add_overflow_i64_lem (pos 9223372036854775807) (pos 1) refl refl

sub_overflow_i64_lem_example :
    sub_overflow_i64 (negsuc 9223372036854775807) (pos 1)
    ≡ builtin_overflow (negsuc 9223372036854775807 +ℤ negate (pos 1))
sub_overflow_i64_lem_example = sub_overflow_i64_lem (negsuc 9223372036854775807) (pos 1) refl refl

mul_overflow_i48_msvc_lem_example :
    (mul_overflow_i48_msvc (negsuc 1) (pos 3) ≡ in_int48 (negsuc 1 *ℤ pos 3))
    × (mul_overflow_i48_arm (negsuc 1) (pos 3) ≡ in_int48 (negsuc 1 *ℤ pos 3))
mul_overflow_i48_msvc_lem_example = mul_overflow_i48_msvc_lem (negsuc 1) (pos 3) refl refl

mul_overflow_i48_gcc_lem_example :
    mul_overflow_i48_gcc (negsuc 1) (pos 3)
    ≡ (if leb_ℤ (pos 0) (negsuc 1 *ℤ pos 3) then in_int48 (negsuc 1 *ℤ pos 3) else none)
mul_overflow_i48_gcc_lem_example = mul_overflow_i48_gcc_lem (negsuc 1) (pos 3)
