-- ===== src/Serializer/Code.antt =====
-- bytecode_serializer.h: the compact form of code. An instruction with a 16-bit operand below 256 is
-- written in two bytes, its opcode with the high bit set and the low operand byte.
use nari.Prelude.{
  ℕ, zero, suc, ◌+◌, ◌-◌, ◌*◌, ◌^◌, Bool, false, [], ◌∷◌, ◌++◌, Option, none, some, bit_and, bit_or,
  ◌==◌, not, ◌&&◌, ltb, is_one_of, length, take, drop, get_or, if◌then◌else◌,
}
use nari.Prelude.Int.{ℤ, pos, negsuc}
use nari.Bytecode.OpCode.{OpCode, op_jump, op_jump_if_false, op_jump_if_true, op_jump_if_none}
use nari.Bytecode.OpcodeInfo.{opcode_info, opcode_operand_size, decoded_instruction_size, be_u16}
use nari.Bytecode.Chunk.{Bytes}

unfoldable pub has_two_operand_bytes : ℤ → Bool
has_two_operand_bytes (pos n) = n == 2
has_two_operand_bytes (negsuc n) = false

unfoldable pub has_compact_u16_alias : OpCode → Bool
unfolding opcode_operand_size has_two_operand_bytes
has_compact_u16_alias op =
    if not (has_two_operand_bytes (opcode_operand_size op))
    then false
    else if is_one_of op (op_jump ∷ op_jump_if_false ∷ op_jump_if_true ∷ op_jump_if_none ∷ [])
    then false
    else ltb op 0x80

-- The loop over `code`, the bytes from position pc on. Each round takes a byte at least.
unfoldable pub compact_loop : ℕ → Bytes → Bytes
compact_loop fuel [] = []
compact_loop zero (op ∷ rest) = []
compact_loop (suc fuel) (op ∷ rest) =
    let code = op ∷ rest in
    let size = decoded_instruction_size code in
    let more = compact_loop fuel (drop size code) in
    if size == 0
    then code
    else if has_compact_u16_alias op && get_or code 1 0 == 0
    then bit_or op 0x80 ∷ get_or code 2 0 ∷ more
    else take size code ++ more

unfoldable pub compact_code : Bytes → Bytes
unfolding compact_loop decoded_instruction_size has_compact_u16_alias
compact_code code = compact_loop (length code) code

abbrev pub max_code : ℕ
max_code = 2 ^ 26

-- The size of an instruction of `expand_code` at the front of `code`; `none` is the thrown error.
unfoldable pub expanded_size : ℕ → Bool → Bytes → Option ℕ
expanded_size operand_size variable_size code =
    let size = 1 + operand_size in
    let size' = size + be_u16 (get_or code 3 0) (get_or code 4 0) * 3 in
    if ltb (length code) size
    then none
    else if variable_size
    then if ltb (length code) size' then none else some size'
    else some size

-- The loop of `expand_code`; `out` is what it has pushed to `code`.
unfoldable pub expand_loop : ℕ → Bytes → Bytes → Option Bytes
expand_loop fuel [] out = some out
expand_loop zero (encoded_op ∷ rest) out = none
expand_loop (suc fuel) (encoded_op ∷ rest) out =
    let data' = encoded_op ∷ rest in
    let alias_op = bit_and encoded_op 0x7f in
    let after_alias =
      expand_loop fuel (drop 2 data') (out ++ (alias_op ∷ 0 ∷ get_or data' 1 0 ∷ [])) in
    if not (bit_and encoded_op 0x80 == 0) && has_compact_u16_alias alias_op
    then if ltb (length data') 2
      then none
      else if ltb (max_code - 3) (length out)
      then none
      else after_alias
    else elim (opcode_info encoded_op) [
      | none ↦ expand_loop fuel rest (out ++ (encoded_op ∷ []))
      | some info ↦ elim (expanded_size info.operand_size info.variable_size data') [
        | none ↦ none
        | some size ↦
            let after_copy = expand_loop fuel (drop size data') (out ++ take size data') in
            if ltb (max_code - size) (length out) then none else after_copy
      ]
    ]

unfoldable pub expand_code : Bytes → Option Bytes
unfolding expand_loop expanded_size opcode_info has_compact_u16_alias
expand_code bytes = expand_loop (length bytes) bytes []
