-- ===== src/Verifier/Decode.antt =====
-- bytecode_verify.h: the first two passes of `verify_function`, which decode the code into
-- instructions, check every operand, and check that jumps go to instruction boundaries.
use nari.Prelude.{
  ℕ, zero, suc, ◌+◌, ◌*◌, Bool, true, false, List, [], ◌∷◌, ◌++◌, Option, none, some, ◌==◌, not,
  ◌&&◌, ◌||◌, ltb, leb, is_one_of, length, get_or, drop, set, replicate, if◌then◌else◌, ◌>>=◌, ◌>>◌,
  guard,
}
use nari.Prelude.Int.{ℤ, pos, negsuc, ltb_ℤ}
use nari.Bytecode.OpcodeInfo.{opcode_operand_size}
use nari.Bytecode.Chunk.{Bytes}
use nari.Bytecode.OpCode
use nari.Verifier.Insn.{
  InsnInfo, read_u16_be, read_i16_be, jump_target_after_operand, to_size, conditional_jumps,
}
use nari.Verifier.Flow.{PcIndex, insn_at, Decoded}

-- The limits that operands are checked against, and whether NARI_EXTENDED_JSRT is defined.
pub record Limits : Type 0 where
  pub n_code : ℕ
  pub n_consts : ℕ
  pub n_locals : ℕ
  pub n_caps : ℕ
  pub n_strs : ℕ
  pub n_funcs : ℕ
  pub extended_jsrt : Bool

abbrev pub name_operands : List ℕ
name_operands =
    OpCode.op_load_global ∷ OpCode.op_store_global ∷ OpCode.op_str_append_global
    ∷ OpCode.op_object_set ∷ OpCode.op_get_property ∷ OpCode.op_js_get_prop_static
    ∷ OpCode.op_js_set_prop_static ∷ OpCode.op_js_postinc ∷ OpCode.op_set_property ∷ []

abbrev pub local_operands : List ℕ
local_operands = OpCode.op_load_var ∷ OpCode.op_store_var ∷ OpCode.op_str_append_var ∷ []

abbrev pub capture_operands : List ℕ
capture_operands = OpCode.op_load_capture ∷ OpCode.op_store_capture ∷ []

-- The opcodes whose case assigns `info.u16_a`.
abbrev pub assigns_u16 : OpCode.OpCode → Bool
assigns_u16 op =
    is_one_of op (OpCode.op_load_const ∷ OpCode.op_close_upvalues ∷ local_operands)
    || is_one_of op name_operands
    || is_one_of op capture_operands
    || is_one_of op (OpCode.op_make_array ∷ OpCode.op_make_object ∷ [])
    || is_one_of op (OpCode.op_new_instance ∷ OpCode.op_call_method ∷ OpCode.op_check_type ∷ [])

-- `info` with the fields that the `switch` assigns.
unfoldable pub with_operands : InsnInfo → Bytes → InsnInfo
with_operands info p = record info {
  jump_a =
      if is_one_of info.op (OpCode.op_jump ∷ OpCode.op_setup_try ∷ conditional_jumps)
      then read_i16_be p 0
      else info.jump_a;
  jump_b = if info.op == OpCode.op_setup_try then read_i16_be p 2 else info.jump_b;
  u16_a = if assigns_u16 info.op then read_u16_be p 0 else info.u16_a;
  u8_a =
      if is_one_of info.op (OpCode.op_self_tail_call ∷ OpCode.op_call ∷ [])
      then get_or p 0 0
      else if is_one_of info.op
          (OpCode.op_new_instance ∷ OpCode.op_call_method ∷ OpCode.op_check_type ∷ [])
      then get_or p 2 0
      else info.u8_a;
}

module _ (l : Limits) where
  -- A jump target in 0 .. n_code.
  abbrev pub is_target : ℤ → Bool
  is_target target = not (ltb_ℤ target (pos 0)) && not (ltb_ℤ (pos l.n_code) target)

  -- One capture descriptor of MAKE_CLOSURE.
  abbrev pub is_capture : ℕ → ℕ → Bool
  is_capture source cidx =
      if source == 0
      then ltb cidx l.n_locals
      else if source == 1
      then ltb cidx l.n_caps
      else if source == 2
      then ltb cidx l.n_strs
      else false

  -- The loop over `cap_count` descriptors of three bytes.
  unfoldable pub check_captures : ℕ → Bytes → Bool
  check_captures zero p = true
  check_captures (suc count) p =
      is_capture (get_or p 0 0) (read_u16_be p 1) && check_captures count (drop 3 p)

  -- The checks of the `switch` on the opcode, but for MAKE_CLOSURE; `p` points to the operands.
  unfoldable pub operands_fit : OpCode.OpCode → ℕ → Bytes → Bool
  operands_fit op operand_pc p =
      let u16 = read_u16_be p 0 in
      if op == OpCode.op_load_const
      then ltb u16 l.n_consts
      else if op == OpCode.op_close_upvalues
      then leb u16 l.n_locals
      else if is_one_of op local_operands
      then ltb u16 l.n_locals
      else if is_one_of op name_operands
      then ltb u16 l.n_strs
      else if is_one_of op capture_operands
      then ltb u16 l.n_caps
      else if op == OpCode.op_call
      then ltb (read_u16_be p 1) l.n_strs
      else if op == OpCode.op_call_spread
      then ltb u16 l.n_strs
      else if is_one_of op (OpCode.op_new_instance ∷ OpCode.op_call_method ∷ [])
      then ltb u16 l.n_strs
      else if is_one_of op (OpCode.op_jump ∷ conditional_jumps)
      then is_target (jump_target_after_operand operand_pc 2 (read_i16_be p 0))
      else if op == OpCode.op_setup_try
      then is_target (jump_target_after_operand operand_pc 4 (read_i16_be p 0))
        && is_target (jump_target_after_operand operand_pc 4 (read_i16_be p 2))
      else if op == OpCode.op_make_regex
      then ltb u16 l.n_strs && ltb (read_u16_be p 2) l.n_strs
      else if op == OpCode.op_check_type
      then ltb u16 l.n_strs && leb (get_or p 2 0) 2
      else true

  -- The case of MAKE_CLOSURE, which sets its own size.
  unfoldable pub check_closure : InsnInfo → Bytes → Option InsnInfo
  check_closure info p =
      let fidx = read_u16_be p 0 in
      let cap_count = read_u16_be p 2 in
      guard (ltb fidx l.n_funcs)
      >> (guard (not (ltb l.n_code (info.operand_pc + 4 + cap_count * 3)))
          >> (guard (check_captures cap_count (drop 4 p))
              >> some (record info { u16_a = fidx; size = 1 + 4 + cap_count * 3 })))

  -- One instruction: its opcode at `pc`, and the bytes behind that.
  unfoldable pub decode_insn : ℕ → ℕ → Bytes → Option InsnInfo
  unfolding opcode_operand_size
  decode_insn pc op rest =
      let info : InsnInfo = record {
        pc = pc;
        op = op;
        operand_pc = pc + 1;
        size = 1;
        jump_a = pos 0;
        jump_b = pos 0;
        u16_a = 0;
        u8_a = 0;
      } in
      let disabled = leb OpCode.op_js_bit_and op && leb op OpCode.op_js_ushr in
      if not l.extended_jsrt && disabled then none else elim (opcode_operand_size op) [
        | negsuc _ ↦ none
        | pos osz ↦
            if ltb l.n_code (pc + 1 + osz)
            then none
            else if op == OpCode.op_make_closure
            then check_closure info rest
            else guard (operands_fit op (pc + 1) rest)
              >> some (with_operands (record info { size = 1 + osz }) rest)
      ]

  -- The decoding loop at `pc`, over the bytes from there on. An instruction has a byte at least.
  unfoldable pub decode_loop : ℕ → ℕ → Bytes → List InsnInfo → PcIndex → Option Decoded
  decode_loop fuel pc [] insns pc_to_index =
      if pc == l.n_code
      then some (record { insns = insns; pc_to_index = pc_to_index; code_size = l.n_code })
      else none
  decode_loop zero pc (op ∷ rest) insns pc_to_index = none
  decode_loop (suc fuel) pc (op ∷ rest) insns pc_to_index = decode_insn pc op rest >>= λ info.
      decode_loop fuel (pc + info.size) (drop info.size (op ∷ rest)) (insns ++ info ∷ [])
        (set pc_to_index pc (some (length insns)))

abbrev pub is_instruction_boundary : ℕ → PcIndex → ℕ → Bool
is_instruction_boundary pc pc_to_index code_size =
    pc == code_size || elim (insn_at pc_to_index pc) [ none ↦ false | some _ ↦ true ]

-- The second pass, for one instruction.
unfoldable pub check_boundary : Decoded → InsnInfo → Bool
check_boundary d insn =
    let boundary = λ (operand_size : ℕ) (rel : ℤ).
      is_instruction_boundary (to_size (jump_target_after_operand insn.operand_pc operand_size rel))
        d.pc_to_index d.code_size in
    if is_one_of insn.op (OpCode.op_jump ∷ conditional_jumps)
    then boundary 2 insn.jump_a
    else if insn.op == OpCode.op_setup_try
    then boundary 4 insn.jump_a && boundary 4 insn.jump_b
    else true

unfoldable pub check_boundaries : Decoded → List InsnInfo → Bool
unfolding check_boundary
check_boundaries d [] = true
check_boundaries d (insn ∷ insns) = check_boundary d insn && check_boundaries d insns

-- Both passes.
unfoldable pub decode_function : Limits → Bytes → Option Decoded
unfolding decode_loop check_boundaries
decode_function l code = do
  d ← decode_loop l (length code) 0 code [] (replicate (length code) none)
  guard (check_boundaries d d.insns)
  some d
