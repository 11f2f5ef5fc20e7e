-- ===== src/Serializer/Read.antt =====
-- bytecode_serializer.h: the read helpers. The position `pos` into `data` is the list of the bytes
-- from there on, so `length - pos` is its length; `none` is a thrown DeserializeError.
use nari.Prelude.{
  ℕ, zero, suc, ◌+◌, ◌-◌, ◌*◌, ◌/◌, ◌%◌, ◌^◌, Bool, List, [], ◌∷◌, Option, none, some, bit_and,
  bit_or, ◌==◌, not, ◌&&◌, ltb, length, take, drop, if◌then◌else◌, ◌>>=◌, ◌>>◌, guard,
}
use nari.Prelude.Int.{ℤ, pos, negsuc}
use nari.Bytecode.Chunk.{Bytes}

unfoldable pub read_u8 : Bytes → Option (ℕ × Bytes)
read_u8 [] = none
read_u8 (b ∷ rest) = some (b, rest)

-- `static_cast<int8_t>` of a byte.
unfoldable pub read_i8 : Bytes → Option (ℤ × Bytes)
read_i8 [] = none
read_i8 (b ∷ rest) = some ((if ltb b 128 then pos b else negsuc (255 - b)), rest)

unfoldable pub read_u16 : Bytes → Option (ℕ × Bytes)
read_u16 (low ∷ high ∷ rest) = some (bit_or low (high * 2 ^ 8), rest)
read_u16 _ = none

-- `for (shift = 0; shift < 64; shift += 7)`, with the rounds that are left.
unfoldable pub read_varuint_loop : ℕ → ℕ → ℕ → Bytes → Option (ℕ × Bytes)
unfolding read_u8
read_varuint_loop zero shift value at = none
read_varuint_loop (suc rounds) shift value at = do
  (byte, at') ← read_u8 at
  guard (not (shift == 63 && not (bit_and byte 0xfe == 0)))
  let value' = bit_or value (bit_and byte 0x7f * 2 ^ shift % 2 ^ 64)
  let more = read_varuint_loop rounds (shift + 7) value' at'
  if bit_and byte 0x80 == 0 then some (value', at') else more

unfoldable pub read_varuint : Bytes → Option (ℕ × Bytes)
unfolding read_varuint_loop
read_varuint at = read_varuint_loop 10 0 0 at

unfoldable pub read_varuint32 : Bytes → Option (ℕ × Bytes)
unfolding read_varuint
read_varuint32 at = do
  (value, at') ← read_varuint at
  if ltb (2 ^ 32 - 1) value then none else some (value, at')

-- `~` of the nonnegative number n is -(n + 1).
unfoldable pub unzigzag : ℕ → ℤ
unzigzag z = if bit_and z 1 == 0 then pos (z / 2) else negsuc (z / 2)

unfoldable pub read_varint : Bytes → Option (ℤ × Bytes)
unfolding read_varuint unzigzag
read_varint at = do (z, at') ← read_varuint at; some (unzigzag z, at')

-- The loop of `read_u64` and `read_f64`: `v |= data[pos++] << (i * 8)`, with the rounds left.
unfoldable pub read_le : ℕ → ℕ → ℕ → Bytes → Option (ℕ × Bytes)
unfolding read_u8
read_le zero shift v at = some (v, at)
read_le (suc rounds) shift v at = do
  (byte, at') ← read_u8 at
  read_le rounds (shift + 8) (bit_or v (byte * 2 ^ shift)) at'

unfoldable pub read_u64 : Bytes → Option (ℕ × Bytes)
unfolding read_le
read_u64 at = let v = read_le 8 0 0 at in if ltb (length at) 8 then none else v

unfoldable pub read_f64 : Bytes → Option (ℕ × Bytes)
unfolding read_le
read_f64 at = let u = read_le 8 0 0 at in if ltb (length at) 8 then none else u

unfoldable pub read_bool : Bytes → Option (Bool × Bytes)
unfolding read_u8
read_bool at = do (b, at') ← read_u8 at; some (not (b == 0), at')

unfoldable pub read_string : Bytes → Option (Bytes × Bytes)
unfolding read_varuint32
read_string at = do
  (len, at') ← read_varuint32 at
  if ltb (2 ^ 24) len
      then none
      else if ltb (length at') len
      then none
      else some (take len at', drop len at')

abbrev pub max_count : ℕ
max_count = 2 ^ 20

-- A container count with its sanity bound.
unfoldable pub read_count : Bytes → Option (ℕ × Bytes)
unfolding read_varuint32
read_count at = do
  (count, at') ← read_varuint32 at
  if ltb max_count count then none else some (count, at')

-- A loop that reads `count` elements of a container.
unfoldable pub read_many {ℓ} :
    {A : Type ℓ} → (Bytes → Option (A × Bytes)) → ℕ → Bytes → Option (List A × Bytes)
read_many read zero at = some ([], at)
read_many read (suc count) at = do
  (x, at') ← read at
  (xs, at'') ← read_many read count at'
  some (x ∷ xs, at'')
