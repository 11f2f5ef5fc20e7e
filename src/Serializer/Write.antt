-- ===== src/Serializer/Write.antt =====
-- bytecode_serializer.h: the write helpers. Each gives the bytes that the source appends to `buf`.
-- `v & 0xff` is `v % 256` and `v >>= k` is `v / 2 ^ k`.
use nari.Prelude.{
  ℕ, zero, suc, ◌-◌, ◌*◌, ◌/◌, ◌%◌, ◌^◌, Bool, [], ◌∷◌, ◌++◌, bit_or, ◌==◌, length, if◌then◌else◌,
}
use nari.Prelude.Int.{ℤ, pos, negsuc}
use nari.Bytecode.Chunk.{Bytes}

unfoldable pub write_u8 : ℕ → Bytes
write_u8 v = (v % 256) ∷ []

-- `static_cast<uint8_t>` of an int8_t: the two's complement byte.
unfoldable pub write_i8 : ℤ → Bytes
write_i8 (pos n) = (n % 256) ∷ []
write_i8 (negsuc n) = (255 - n % 256) ∷ []

unfoldable pub write_u16 : ℕ → Bytes
write_u16 v = (v % 256) ∷ (v / 256 % 256) ∷ []

-- The do-while loop; a uint64_t has at most ten groups of seven bits, so ten rounds are enough.
unfoldable pub write_varuint_loop : ℕ → ℕ → Bytes
write_varuint_loop zero v = []
write_varuint_loop (suc rounds) v =
    let byte = v % 128 in
    let rest = write_varuint_loop rounds (v / 128) in
    if v / 128 == 0 then byte ∷ [] else bit_or byte 0x80 ∷ rest

unfoldable pub write_varuint : ℕ → Bytes
unfolding write_varuint_loop
write_varuint v = write_varuint_loop 10 v

-- `~v` of the negative number -(n + 1) is n.
unfoldable pub zigzag : ℤ → ℕ
zigzag (pos n) = n * 2 % 2 ^ 64
zigzag (negsuc n) = bit_or (n * 2 % 2 ^ 64) 1

unfoldable pub write_varint : ℤ → Bytes
unfolding zigzag write_varuint
write_varint v = write_varuint (zigzag v)

-- The loop of `write_u64` and `write_f64`, with the rounds that are left.
unfoldable pub write_le : ℕ → ℕ → Bytes
write_le zero v = []
write_le (suc rounds) v = (v % 256) ∷ write_le rounds (v / 256)

unfoldable pub write_u64 : ℕ → Bytes
unfolding write_le
write_u64 v = write_le 8 v

-- The argument is the bit pattern that `memcpy` takes from the double.
unfoldable pub write_f64 : ℕ → Bytes
unfolding write_le
write_f64 u = write_le 8 u

unfoldable pub write_bool : Bool → Bytes
unfolding write_u8
write_bool b = write_u8 (if b then 1 else 0)

unfoldable pub write_string : Bytes → Bytes
unfolding write_varuint
write_string s = write_varuint (length s) ++ s
