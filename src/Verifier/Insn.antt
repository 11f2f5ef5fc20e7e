-- ===== src/Verifier/Insn.antt =====
-- bytecode_verify.h: a decoded instruction and what it does to the height of the stack.
-- A failed check is `none`: the source prints a message and returns false.
use nari.Prelude.{
  ℕ, ◌+◌, ◌-◌, ◌*◌, ◌^◌, List, [], ◌∷◌, Option, none, some, ◌==◌, ltb, is_one_of, if◌then◌else◌,
  get_or,
}
use nari.Prelude.Int.{ℤ, pos, negsuc, ◌+ℤ◌}
use nari.Bytecode.OpcodeInfo.{be_u16}
use nari.Bytecode.Chunk.{Bytes}
use nari.Bytecode.OpCode

-- `op` is also `op_byte`.
pub record InsnInfo : Type 0 where
  pub pc : ℕ
  pub op : OpCode.OpCode
  pub operand_pc : ℕ
  pub size : ℕ
  pub jump_a : ℤ
  pub jump_b : ℤ
  pub u16_a : ℕ
  pub u8_a : ℕ

-- The operand bytes at offset `i` from where `p` points.
abbrev pub read_u16_be : Bytes → ℕ → ℕ
read_u16_be p i = be_u16 (get_or p i 0) (get_or p (i + 1) 0)

abbrev pub to_i16 : ℕ → ℤ
to_i16 u = if ltb u (2 ^ 15) then pos u else negsuc (2 ^ 16 - 1 - u)

abbrev pub read_i16_be : Bytes → ℕ → ℤ
read_i16_be p i = to_i16 (read_u16_be p i)

unfoldable pub jump_target_after_operand : ℕ → ℕ → ℤ → ℤ
unfolding ◌+ℤ◌
jump_target_after_operand operand_pc operand_size rel = pos (operand_pc + operand_size) +ℤ rel

-- `(size_t)` of an int64_t.
abbrev pub to_size : ℤ → ℕ
to_size (pos n) = n
to_size (negsuc n) = 2 ^ 64 - 1 - n

-- `require` and the assignment of `out_height`.
abbrev pub set_delta : ℕ → ℕ → ℕ → Option ℕ
set_delta in_height pop_count push_count =
    if ltb in_height pop_count then none else some (in_height - pop_count + push_count)

abbrev pub loads : List ℕ
loads =
    OpCode.op_load_const ∷ OpCode.op_load_var ∷ OpCode.op_load_global ∷ OpCode.op_load_capture
    ∷ OpCode.op_load_none ∷ OpCode.op_load_true ∷ OpCode.op_load_false ∷ OpCode.op_load_zero
    ∷ OpCode.op_load_one ∷ OpCode.op_load_this ∷ OpCode.op_make_regex ∷ []

abbrev pub stores : List ℕ
stores =
    OpCode.op_store_var ∷ OpCode.op_store_global ∷ OpCode.op_store_capture
    ∷ OpCode.op_str_append_var ∷ OpCode.op_str_append_global ∷ OpCode.op_check_type ∷ []

abbrev pub unaries : List ℕ
unaries =
    OpCode.op_neg ∷ OpCode.op_format_value ∷ OpCode.op_not ∷ OpCode.op_js_truthy ∷ OpCode.op_bit_not
    ∷ OpCode.op_js_bit_not ∷ OpCode.op_spawn ∷ OpCode.op_get_property ∷ OpCode.op_js_get_prop_static
    ∷ OpCode.op_iter_array ∷ []

abbrev pub binaries : List ℕ
binaries =
    OpCode.op_add ∷ OpCode.op_sub ∷ OpCode.op_mul ∷ OpCode.op_div ∷ OpCode.op_mod ∷ OpCode.op_pow
    ∷ OpCode.op_str_concat ∷ OpCode.op_bit_and ∷ OpCode.op_bit_or ∷ OpCode.op_bit_xor
    ∷ OpCode.op_js_bit_and ∷ OpCode.op_js_bit_or ∷ OpCode.op_js_bit_xor ∷ OpCode.op_js_shl
    ∷ OpCode.op_js_shr ∷ OpCode.op_js_ushr ∷ OpCode.op_lshift ∷ OpCode.op_rshift ∷ OpCode.op_eq
    ∷ OpCode.op_ne ∷ OpCode.op_strict_eq ∷ OpCode.op_strict_ne ∷ OpCode.op_lt ∷ OpCode.op_le
    ∷ OpCode.op_gt ∷ OpCode.op_ge ∷ OpCode.op_get_index ∷ OpCode.op_array_push
    ∷ OpCode.op_array_spread ∷ OpCode.op_object_spread ∷ OpCode.op_object_set ∷ []

abbrev pub conditional_jumps : List ℕ
conditional_jumps = OpCode.op_jump_if_false ∷ OpCode.op_jump_if_true ∷ OpCode.op_jump_if_none ∷ []

abbrev pub neutrals : List ℕ
neutrals =
    OpCode.op_jump ∷ OpCode.op_setup_try ∷ OpCode.op_pop_try ∷ OpCode.op_begin_catch
    ∷ OpCode.op_begin_finally ∷ []

-- The `switch` of `stack_effect`, in its order; the result is `out_height`.
unfoldable pub stack_effect : InsnInfo → ℕ → Option ℕ
stack_effect insn h =
    if is_one_of insn.op loads
    then set_delta h 0 1
    else if is_one_of insn.op stores
    then set_delta h 1 1
    else if is_one_of insn.op (OpCode.op_pop ∷ OpCode.op_throw ∷ [])
    then set_delta h 1 0
    else if insn.op == OpCode.op_dup
    then set_delta h 1 2
    else if is_one_of insn.op unaries
    then set_delta h 1 1
    else if is_one_of insn.op (OpCode.op_make_iterator ∷ OpCode.op_make_iterator_kv ∷ [])
    then set_delta h 1 2
    else if is_one_of insn.op binaries
    then set_delta h 2 1
    else if insn.op == OpCode.op_set_index
    then set_delta h 3 1
    else if is_one_of insn.op (OpCode.op_set_property ∷ OpCode.op_js_set_prop_static ∷ [])
    then set_delta h 2 1
    else if insn.op == OpCode.op_js_postinc
    then set_delta h 1 1
    else if insn.op == OpCode.op_close_upvalues
    then set_delta h 0 0
    else if insn.op == OpCode.op_make_array
    then set_delta h insn.u16_a 1
    else if insn.op == OpCode.op_make_object
    then set_delta h (insn.u16_a * 2) 1
    else if insn.op == OpCode.op_call
    then set_delta h (insn.u8_a + 1) 1
    else if insn.op == OpCode.op_self_tail_call
    then set_delta h insn.u8_a 0
    else if insn.op == OpCode.op_new_instance
    then set_delta h insn.u8_a 1
    else if insn.op == OpCode.op_call_method
    then set_delta h (insn.u8_a + 1) 1
    else if insn.op == OpCode.op_call_spread
    then set_delta h 2 1
    else if insn.op == OpCode.op_make_closure
    then set_delta h 0 1
    else if is_one_of insn.op (OpCode.op_iter_next ∷ OpCode.op_iter_next_kv ∷ [])
    then none
    else if is_one_of insn.op conditional_jumps
    then set_delta h 1 0
    else if is_one_of insn.op neutrals
    then some h
    else if insn.op == OpCode.op_return
    then set_delta h 1 0
    else none
