-- ===== src/Serializer/RoundTrip/Numbers.antt =====
-- bytecode_serializer.h: each read helper reads what its write helper wrote, and leaves what follows.
use nari.Prelude.{
  ℕ, zero, suc, ◌+◌, ◌-◌, ◌*◌, ◌/◌, ◌%◌, ◌^◌, ◌≤◌, ◌<◌, ◌≡◌, refl, ap, ◌≢◌, arith, Bool, true,
  false, ◌∷◌, ◌++◌, append_assoc, some, bit_or, length, length-append, take-append, drop-append,
  le→ltb,
}
use nari.Prelude.Bits.{
  set_high_bit, low_seven, high_bit, all_but_lowest, bit_or-field, bit_or-even_one, bit_and-one,
}
use nari.Prelude.Int.{ℤ, pos, negsuc, ◌≤ℤ◌}
use native.Mathlib.Numerals.{towards_suc}
use native.Mathlib.Nat.{div-add-mod}
use nari.Bytecode.Chunk.{Bytes}
use nari.Serializer.Write.{
  write_u8, write_i8, write_u16, write_varuint_loop, write_varuint, zigzag, write_varint, write_le,
  write_u64, write_f64, write_bool, write_string,
}
use nari.Serializer.Read.{
  read_u8, read_i8, read_u16, read_varuint_loop, read_varuint, read_varuint32, unzigzag,
  read_varint, read_le, read_u64, read_f64, read_bool, read_string, read_count, max_count,
}

pub read_u8-write_u8 :
    (v : ℕ) (rest : Bytes) → v < 256 → read_u8 (write_u8 v ++ rest) ≡ some (v, rest)
unfolding read_u8 write_u8
read_u8-write_u8 v rest h = ground arith

-- The values of an int8_t and of an int64_t.
abbrev pub IsI8 : ℤ → Type 0
IsI8 v = (negsuc 127 ≤ℤ v) × (v ≤ℤ pos 127)

abbrev pub IsI64 : ℤ → Type 0
IsI64 v = (negsuc (2 ^ 63 - 1) ≤ℤ v) × (v ≤ℤ pos (2 ^ 63 - 1))

pub read_i8-write_i8 :
    (v : ℤ) (rest : Bytes) → IsI8 v → read_i8 (write_i8 v ++ rest) ≡ some (v, rest)
unfolding read_i8 write_i8
read_i8-write_i8 (pos n) rest h = ground arith
read_i8-write_i8 (negsuc n) rest h = ground arith

pub read_u16-write_u16 :
    (v : ℕ) (rest : Bytes) → v < 2 ^ 16 → read_u16 (write_u16 v ++ rest) ≡ some (v, rest)
unfolding read_u16 write_u16
read_u16-write_u16 v rest h = ground (arith, bit_or-field 8 (v % 256) (v / 256 % 256))

pub read_bool-write_bool :
    (b : Bool) (rest : Bytes) → read_bool (write_bool b ++ rest) ≡ some (b, rest)
unfolding read_bool write_bool
read_bool-write_bool true rest = refl
read_bool-write_bool false rest = refl

-- One round of `read_varuint` on the last byte `g`, and on a byte with the high bit over `g`.
last_group :
    (k g shift value : ℕ) (rest : Bytes)
    → g < 128
    → value < 2 ^ shift
    → value + g * 2 ^ shift < 2 ^ 64
    → read_varuint_loop (suc k) shift value (g ∷ rest) ≡ some (value + g * 2 ^ shift, rest)
unfolding read_varuint_loop
last_group k g shift value rest hg hv fits = ground (
  arith,
  low_seven g,
  high_bit g,
  all_but_lowest g,
  bit_or-field shift value g,
  λ (e : shift ≡ 63). ap (λ (t : ℕ). g * 2 ^ t) e,
)

inner_group :
    (k g shift value : ℕ) (rest : Bytes)
    → g < 128
    → shift ≢ 63
    → value < 2 ^ shift
    → value + g * 2 ^ shift < 2 ^ 64
    → read_varuint_loop (suc k) shift value (bit_or g 0x80 ∷ rest)
      ≡ read_varuint_loop k (shift + 7) (value + g * 2 ^ shift) rest
unfolding read_varuint_loop
inner_group k g shift value rest hg hs hv fits =
    ground
      (arith, set_high_bit g, low_seven (g + 128), high_bit (g + 128), bit_or-field shift value g)

shift_by_seven : (s : ℕ) → 2 ^ (s + 7) ≡ 128 * 2 ^ s
shift_by_seven s = simp towards_suc (omega arith)

-- The lowest seven bits of `w` and the others, each at its place.
split_at_seven : (w s : ℕ) → w * 2 ^ s ≡ w % 128 * 2 ^ s + w / 128 * 2 ^ (s + 7)
split_at_seven w s = omega (
  arith,
  ap (λ (t : ℕ). t * 2 ^ s) (div-add-mod w 128),
  ap (λ (t : ℕ). w / 128 * t) (shift_by_seven s),
)

below_next_shift : (g s value : ℕ) → g < 128 → value < 2 ^ s → value + g * 2 ^ s < 2 ^ (s + 7)
below_next_shift g s value hg hv = grind (arith, shift_by_seven s)

-- With `k + 1` rounds left, the shift has come to 7 * (9 - k).
varuint_rounds :
    (k w shift value : ℕ) (rest : Bytes)
    → 7 * k + shift ≡ 63
    → w < 128 ^ suc k
    → value < 2 ^ shift
    → value + w * 2 ^ shift < 2 ^ 64
    → read_varuint_loop (suc k) shift value (write_varuint_loop (suc k) w ++ rest)
      ≡ some (value + w * 2 ^ shift, rest)
unfolding write_varuint_loop
varuint_rounds zero w shift value rest hs hw hv fits =
    ground (arith, last_group zero w shift value rest)
varuint_rounds (suc k) w shift value rest hs hw hv fits = ground (
  arith,
  last_group (suc k) w shift value rest,
  split_at_seven w shift,
  below_next_shift (w % 128) shift value,
  inner_group (suc k) (w % 128) shift value (write_varuint_loop (suc k) (w / 128) ++ rest),
  varuint_rounds k (w / 128) (shift + 7) (value + w % 128 * 2 ^ shift) rest (omega arith)
      (omega arith),
)

-- A number below 2 ^ 64 is read back from its variable-length bytes, and the bytes behind it are left.
pub read_varuint-write_varuint :
    (v : ℕ) (rest : Bytes) → v < 2 ^ 64 → read_varuint (write_varuint v ++ rest) ≡ some (v, rest)
unfolding read_varuint write_varuint
read_varuint-write_varuint v rest h = ground (arith, varuint_rounds 9 v 0 0 rest)

pub read_varuint32-write_varuint :
    (v : ℕ) (rest : Bytes) → v < 2 ^ 32 → read_varuint32 (write_varuint v ++ rest) ≡ some (v, rest)
read_varuint32-write_varuint v rest h =
    unfold read_varuint32 in rw (read_varuint-write_varuint v rest (omega arith)) (ground arith)

pub read_count-write_varuint :
    (v : ℕ) (rest : Bytes) → v ≤ max_count → read_count (write_varuint v ++ rest) ≡ some (v, rest)
read_count-write_varuint v rest h =
    unfold read_count in rw (read_varuint32-write_varuint v rest (omega arith)) (ground arith)

unzigzag-zigzag : (v : ℤ) → IsI64 v → unzigzag (zigzag v) ≡ v
unfolding unzigzag zigzag
unzigzag-zigzag (pos n) h = ground (arith, bit_and-one (n * 2 % 2 ^ 64))
unzigzag-zigzag (negsuc n) h = ground (arith, bit_or-even_one n, bit_and-one (n * 2 + 1))

zigzag-lt : (v : ℤ) → IsI64 v → zigzag v < 2 ^ 64
unfolding zigzag
zigzag-lt (pos n) h = ground arith
zigzag-lt (negsuc n) h = ground (arith, bit_or-even_one n)

-- A signed 64-bit number is read back from its zigzag bytes, and the bytes behind it are left.
pub read_varint-write_varint :
    (v : ℤ) (rest : Bytes) → IsI64 v → read_varint (write_varint v ++ rest) ≡ some (v, rest)
read_varint-write_varint v rest h =
    unfold read_varint write_varint in
    rw (read_varuint-write_varuint (zigzag v) rest (zigzag-lt v h), unzigzag-zigzag v h)

shift_by_eight : (s : ℕ) → 2 ^ (s + 8) ≡ 256 * 2 ^ s
shift_by_eight s = simp towards_suc (omega arith)

split_at_eight : (v s : ℕ) → v * 2 ^ s ≡ v % 256 * 2 ^ s + v / 256 * 2 ^ (s + 8)
split_at_eight v s = omega (
  arith,
  ap (λ (t : ℕ). t * 2 ^ s) (div-add-mod v 256),
  ap (λ (t : ℕ). v / 256 * t) (shift_by_eight s),
)

below_next_byte : (b s value : ℕ) → b < 256 → value < 2 ^ s → value + b * 2 ^ s < 2 ^ (s + 8)
below_next_byte b s value hb hv = grind (arith, shift_by_eight s)

read_le-write_le :
    (k v shift value : ℕ) (rest : Bytes)
    → v < 256 ^ k
    → value < 2 ^ shift
    → read_le k shift value (write_le k v ++ rest) ≡ some (value + v * 2 ^ shift, rest)
unfolding read_le write_le
read_le-write_le zero v shift value rest hv hs = ground arith
read_le-write_le (suc k) v shift value rest hv hs = ground (
  arith,
  bit_or-field shift value (v % 256),
  split_at_eight v shift,
  below_next_byte (v % 256) shift value,
  read_le-write_le k (v / 256) (shift + 8) (value + v % 256 * 2 ^ shift) rest,
)

length-write_le : (k v : ℕ) → length (write_le k v) ≡ k
unfolding write_le
length-write_le zero v = refl
length-write_le (suc k) v = ap suc (length-write_le k (v / 256))

eight_bytes :
    (v : ℕ) (rest : Bytes)
    → v < 2 ^ 64
    → (read_le 8 0 0 (write_le 8 v ++ rest) ≡ some (v, rest)) × (8 ≤ length (write_le 8 v ++ rest))
eight_bytes v rest h = (
  ground (arith, read_le-write_le 8 v 0 0 rest),
  omega (arith, length-append (write_le 8 v) rest, length-write_le 8 v),
)

pub read_u64-write_u64 :
    (v : ℕ) (rest : Bytes) → v < 2 ^ 64 → read_u64 (write_u64 v ++ rest) ≡ some (v, rest)
read_u64-write_u64 v rest h =
    let (value, enough) = eight_bytes v rest h in
    unfold read_u64 write_u64 in rw (le→ltb _ _ enough) value

pub read_f64-write_f64 :
    (u : ℕ) (rest : Bytes) → u < 2 ^ 64 → read_f64 (write_f64 u ++ rest) ≡ some (u, rest)
read_f64-write_f64 u rest h =
    let (value, enough) = eight_bytes u rest h in
    unfold read_f64 write_f64 in rw (le→ltb _ _ enough) value

-- A string of at most 2 ^ 24 bytes is read back, and the bytes behind it are left.
pub read_string-write_string :
    (s rest : Bytes) → length s ≤ 2 ^ 24 → read_string (write_string s ++ rest) ≡ some (s, rest)
read_string-write_string s rest h =
    unfold read_string write_string in
    rw (
      append_assoc,
      read_varuint32-write_varuint (length s) (s ++ rest) (omega arith),
      le→ltb (2 ^ 24) (length s) h,
      le→ltb (length (s ++ rest)) (length s) (omega (arith, length-append s rest)),
      take-append,
      drop-append,
    )
