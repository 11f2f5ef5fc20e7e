-- ===== src/Vm/Actions.antt =====
-- bytecode.cpp and bytecode.h: what each opcode does to the operand stack, in the order of the code.
use nari.Prelude.{
  ℕ, ◌+◌, ◌-◌, ◌*◌, Bool, List, [], ◌∷◌, Option, none, some, ◌==◌, ltb, is_one_of, get_or,
  if◌then◌else◌, ◌>>=◌,
}
use nari.Bytecode.Chunk.{Bytes}
use nari.Bytecode.OpCode
use nari.Verifier.Insn.{read_u16_be}

-- `peek(n)`, `pop()`, `push(v)`, and `count` values taken off at once.
pub data Action : Type 0 where
  peek_at : ℕ → Action
  pop_one : Action
  push_one : Action
  drop_many : (count : ℕ) → Action

-- The height after an action; `none` where it reaches below the frame.
unfoldable pub act : Action → ℕ → Option ℕ
act (peek_at n) h = if ltb n h then some h else none
act pop_one h = if ltb 0 h then some (h - 1) else none
act push_one h = some (h + 1)
act (drop_many count) h = if ltb h count then none else some (h - count)

unfoldable pub run_actions : List Action → ℕ → Option ℕ
run_actions [] h = some h
run_actions (a ∷ rest) h = act a h >>= run_actions rest

-- The opcodes that take a number of values that stands in their operands.
abbrev pub is_counted : ℕ → Bool
is_counted op = is_one_of op (
    OpCode.op_make_array ∷ OpCode.op_make_object ∷ OpCode.op_call ∷ OpCode.op_new_instance
    ∷ OpCode.op_call_method ∷ OpCode.op_self_tail_call ∷ [])

-- With the operands at `rest`. A call takes the arguments and what they are for, and pushes a result.
unfoldable pub counted_actions : ℕ → Bytes → List Action
counted_actions op rest =
    if op == OpCode.op_make_array
    then drop_many (read_u16_be rest 0) ∷ push_one ∷ []
    else if op == OpCode.op_make_object
    then drop_many (read_u16_be rest 0 * 2) ∷ push_one ∷ []
    else if op == OpCode.op_call
    then drop_many (get_or rest 0 0) ∷ pop_one ∷ push_one ∷ []
    else if op == OpCode.op_new_instance
    then drop_many (get_or rest 2 0) ∷ push_one ∷ []
    else if op == OpCode.op_call_method
    then drop_many (get_or rest 2 0) ∷ pop_one ∷ push_one ∷ []
    else drop_many (get_or rest 0 0) ∷ []

-- The other opcodes but for the iterators. Those that are not listed leave the stack alone.
unfoldable pub fixed_actions : ℕ → List Action
fixed_actions op =
    if is_one_of op (
      OpCode.op_load_const ∷ OpCode.op_load_var ∷ OpCode.op_load_global ∷ OpCode.op_load_capture
      ∷ OpCode.op_load_none ∷ OpCode.op_load_true ∷ OpCode.op_load_false ∷ OpCode.op_load_zero
      ∷ OpCode.op_load_one ∷ OpCode.op_load_this ∷ OpCode.op_make_regex ∷ OpCode.op_make_closure
      ∷ [])
    then push_one ∷ []
    else if is_one_of op (
        OpCode.op_store_var ∷ OpCode.op_store_global ∷ OpCode.op_store_capture
        ∷ OpCode.op_check_type ∷ [])
    then peek_at 0 ∷ []
    else if is_one_of op (
        OpCode.op_str_append_var ∷ OpCode.op_str_append_global ∷ OpCode.op_format_value
        ∷ OpCode.op_get_property ∷ OpCode.op_spawn ∷ OpCode.op_iter_array ∷ [])
    then pop_one ∷ push_one ∷ []
    else if is_one_of op (OpCode.op_pop ∷ OpCode.op_throw ∷ OpCode.op_return ∷ [])
    then pop_one ∷ []
    else if is_one_of op (OpCode.op_dup ∷ [])
    then peek_at 0 ∷ push_one ∷ []
    else if is_one_of op (
        OpCode.op_add ∷ OpCode.op_sub ∷ OpCode.op_mul ∷ OpCode.op_div ∷ OpCode.op_mod
        ∷ OpCode.op_pow ∷ OpCode.op_str_concat ∷ OpCode.op_eq ∷ OpCode.op_ne ∷ OpCode.op_strict_eq
        ∷ OpCode.op_strict_ne ∷ OpCode.op_lt ∷ OpCode.op_le ∷ OpCode.op_gt ∷ OpCode.op_ge
        ∷ OpCode.op_js_bit_and ∷ OpCode.op_js_bit_or ∷ OpCode.op_js_bit_xor ∷ OpCode.op_js_shl
        ∷ OpCode.op_js_shr ∷ OpCode.op_js_ushr ∷ OpCode.op_js_set_prop_static ∷ [])
    then peek_at 1 ∷ pop_one ∷ []
    else if is_one_of op (
        OpCode.op_bit_and ∷ OpCode.op_bit_or ∷ OpCode.op_bit_xor ∷ OpCode.op_lshift
        ∷ OpCode.op_rshift ∷ OpCode.op_array_push ∷ OpCode.op_array_spread ∷ OpCode.op_object_spread
        ∷ OpCode.op_object_set ∷ [])
    then pop_one ∷ peek_at 0 ∷ []
    else if is_one_of op (
        OpCode.op_neg ∷ OpCode.op_not ∷ OpCode.op_js_truthy ∷ OpCode.op_bit_not
        ∷ OpCode.op_js_bit_not ∷ OpCode.op_js_get_prop_static ∷ OpCode.op_js_postinc ∷ [])
    then peek_at 0 ∷ []
    else if is_one_of op (OpCode.op_get_index ∷ OpCode.op_set_property ∷ OpCode.op_call_spread ∷ [])
    then pop_one ∷ pop_one ∷ push_one ∷ []
    else if is_one_of op (OpCode.op_set_index ∷ [])
    then pop_one ∷ pop_one ∷ pop_one ∷ push_one ∷ []
    else if is_one_of op (OpCode.op_make_iterator ∷ OpCode.op_make_iterator_kv ∷ [])
    then pop_one ∷ push_one ∷ push_one ∷ []
    else if is_one_of op
        (OpCode.op_jump_if_false ∷ OpCode.op_jump_if_true ∷ OpCode.op_jump_if_none ∷ [])
    then peek_at 0 ∷ pop_one ∷ []
    else []

unfoldable pub actions : ℕ → Bytes → List Action
actions op rest = if is_counted op then counted_actions op rest else fixed_actions op
