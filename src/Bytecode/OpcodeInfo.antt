-- ===== src/Bytecode/OpcodeInfo.antt =====
-- bytecode.h: the table of the opcodes (one row for each entry of OPCODE_LIST, in its order), and the
-- sizes that are read from it.
use nari.Prelude.{
  ℕ, ◌+◌, ◌*◌, String, Bool, true, false, Option, none, some, List, [], ◌∷◌, ltb, length, get_elem?,
  get_or, if◌then◌else◌,
}
use nari.Prelude.Int.{ℤ, pos, negsuc}
use nari.Bytecode.OpCode.{OpCode}

pub record OpcodeInfo : Type 0 where
  pub name : String
  pub operand_size : ℕ
  pub variable_size : Bool

abbrev row : String → ℕ → Bool → OpcodeInfo
row name operands variable = record {
  name = name;
  operand_size = operands;
  variable_size = variable;
}

unfoldable pub opcode_table : List OpcodeInfo
opcode_table =
    row "LOAD_CONST" 2 false
    ∷ row "LOAD_VAR" 2 false
    ∷ row "STORE_VAR" 2 false
    ∷ row "LOAD_GLOBAL" 2 false
    ∷ row "STORE_GLOBAL" 2 false
    ∷ row "POP" 0 false
    ∷ row "DUP" 0 false
    ∷ row "LOAD_NONE" 0 false
    ∷ row "LOAD_TRUE" 0 false
    ∷ row "LOAD_FALSE" 0 false
    ∷ row "LOAD_ZERO" 0 false
    ∷ row "LOAD_ONE" 0 false
    ∷ row "ADD" 0 false
    ∷ row "SUB" 0 false
    ∷ row "MUL" 0 false
    ∷ row "DIV" 0 false
    ∷ row "MOD" 0 false
    ∷ row "POW" 0 false
    ∷ row "NEG" 0 false
    ∷ row "STR_CONCAT" 0 false
    ∷ row "STR_APPEND_VAR" 2 false
    ∷ row "STR_APPEND_GLOBAL" 2 false
    ∷ row "BIT_AND" 0 false
    ∷ row "BIT_OR" 0 false
    ∷ row "BIT_XOR" 0 false
    ∷ row "BIT_NOT" 0 false
    ∷ row "LSHIFT" 0 false
    ∷ row "RSHIFT" 0 false
    ∷ row "NOT" 0 false
    ∷ row "EQ" 0 false
    ∷ row "NE" 0 false
    ∷ row "LT" 0 false
    ∷ row "LE" 0 false
    ∷ row "GT" 0 false
    ∷ row "GE" 0 false
    ∷ row "JUMP" 2 false
    ∷ row "JUMP_IF_FALSE" 2 false
    ∷ row "JUMP_IF_TRUE" 2 false
    ∷ row "JUMP_IF_NONE" 2 false
    ∷ row "CALL" 3 false
    ∷ row "SELF_TAIL_CALL" 1 false
    ∷ row "RETURN" 0 false
    ∷ row "MAKE_CLOSURE" 4 true
    ∷ row "SPAWN" 0 false
    ∷ row "MAKE_ARRAY" 2 false
    ∷ row "MAKE_OBJECT" 2 false
    ∷ row "ARRAY_PUSH" 0 false
    ∷ row "ARRAY_SPREAD" 0 false
    ∷ row "OBJECT_SPREAD" 0 false
    ∷ row "OBJECT_SET" 2 false
    ∷ row "CALL_SPREAD" 2 false
    ∷ row "MAKE_REGEX" 4 false
    ∷ row "GET_INDEX" 0 false
    ∷ row "SET_INDEX" 0 false
    ∷ row "GET_PROPERTY" 2 false
    ∷ row "JS_GET_PROP_STATIC" 2 false
    ∷ row "SET_PROPERTY" 2 false
    ∷ row "MAKE_ITERATOR" 0 false
    ∷ row "ITER_NEXT" 0 false
    ∷ row "MAKE_ITERATOR_KV" 0 false
    ∷ row "ITER_NEXT_KV" 0 false
    ∷ row "LOAD_CAPTURE" 2 false
    ∷ row "STORE_CAPTURE" 2 false
    ∷ row "THROW" 0 false
    ∷ row "SETUP_TRY" 4 false
    ∷ row "POP_TRY" 0 false
    ∷ row "BEGIN_CATCH" 0 false
    ∷ row "BEGIN_FINALLY" 0 false
    ∷ row "NEW_INSTANCE" 3 false
    ∷ row "LOAD_THIS" 0 false
    ∷ row "CALL_METHOD" 3 false
    ∷ row "CHECK_TYPE" 3 false
    ∷ row "FORMAT_VALUE" 2 false
    ∷ row "ITER_ARRAY" 0 false
    ∷ row "JS_TRUTHY" 0 false
    ∷ row "JS_BIT_AND" 0 false
    ∷ row "JS_BIT_OR" 0 false
    ∷ row "JS_BIT_XOR" 0 false
    ∷ row "JS_BIT_NOT" 0 false
    ∷ row "JS_SHL" 0 false
    ∷ row "JS_SHR" 0 false
    ∷ row "JS_USHR" 0 false
    ∷ row "STRICT_EQ" 0 false
    ∷ row "STRICT_NE" 0 false
    ∷ row "JS_SET_PROP_STATIC" 2 false
    ∷ row "JS_POSTINC" 2 false
    ∷ row "CLOSE_UPVALUES" 2 false
    ∷ []

-- `none` is the null pointer of an index past the table.
unfoldable pub opcode_info : OpCode → Option OpcodeInfo
unfolding opcode_table
opcode_info op = get_elem? opcode_table op

unfoldable pub opcode_name : OpCode → String
unfolding opcode_info
opcode_name op = elim (opcode_info op) [ some info ↦ info.name | none ↦ "???" ]

-- -1 for an unknown opcode.
unfoldable pub opcode_operand_size : OpCode → ℤ
unfolding opcode_info
opcode_operand_size op = elim (opcode_info op) [
  | some info ↦ pos info.operand_size
  | none ↦ negsuc 0
]

unfoldable pub opcode_fixed_size : OpCode → ℕ
unfolding opcode_operand_size
opcode_fixed_size op = elim (opcode_operand_size op) [ pos operands ↦ 1 + operands | negsuc _ ↦ 0 ]

-- `(high << 8) | low` of two bytes.
abbrev pub be_u16 : ℕ → ℕ → ℕ
be_u16 high low = high * 256 + low

-- The size of the instruction at the front of `code`, the bytes from position pc on, or 0 where
-- they are no whole instruction.
unfoldable pub decoded_instruction_size : List ℕ → ℕ
decoded_instruction_size [] = 0
decoded_instruction_size (op ∷ rest) = elim (opcode_info op) [
  | none ↦ 0
  | some info ↦
      let code = op ∷ rest in
      let size = 1 + info.operand_size in
      let size' = size + be_u16 (get_or code 3 0) (get_or code 4 0) * 3 in
      if ltb (length code) size
      then 0
      else if info.variable_size
      then if ltb (length code) size' then 0 else size'
      else size
]
