-- ===== src/Verifier/Flow.antt =====
-- bytecode_verify.h: `verify_stack_flow`, the pass that gives each instruction one stack height.
-- A height of -1 in `height_at` is `none`.
use nari.Prelude.{
  ℕ, zero, suc, ◌+◌, List, [], ◌∷◌, ◌++◌, Option, none, some, ◌==◌, not, ◌&&◌, ltb, is_one_of,
  length, get_elem?, set, replicate, if◌then◌else◌, ◌>>=◌, ◌>>◌, guard,
}
use nari.Prelude.Int.{ℤ, pos, eqb_ℤ}
use nari.Bytecode.OpCode.{
  op_iter_next, op_iter_next_kv, op_return, op_throw, op_self_tail_call, op_jump, op_setup_try,
}
use nari.Verifier.Insn.{
  InsnInfo, jump_target_after_operand, to_size, stack_effect, conditional_jumps,
}

-- pc → instruction index; `none` is kNoInsn.
abbrev pub PcIndex : Type 0
PcIndex = List (Option ℕ)

-- `pc_to_index[pc]`, and `none` for a pc out of its range too.
abbrev pub insn_at : PcIndex → ℕ → Option ℕ
insn_at pc_to_index pc = get_elem? pc_to_index pc >>= λ idx. idx

-- What the pass is over: the function after decoding.
pub record Decoded : Type 0 where
  pub insns : List InsnInfo
  pub pc_to_index : PcIndex
  pub code_size : ℕ

-- `work` is the queue, its front first.
pub record FlowState : Type 0 where
  pub work : List ℕ
  pub height_at : List (Option ℕ)

-- A control-flow target with the stack height on arrival.
abbrev pub Arrival : Type 0
Arrival = ℕ × ℕ

-- `height_at[idx]` of a known instruction.
abbrev pub known_height : List (Option ℕ) → ℕ → Option ℕ
known_height height_at idx = get_elem? height_at idx >>= λ h. h

-- `out_of_fuel` is no outcome of the source.
pub data FlowResult : Type 0 where
  accepted : List (Option ℕ) → FlowResult
  rejected : FlowResult
  out_of_fuel : FlowResult

-- The second half of `add_successor`, for the instruction at the target.
unfoldable pub record_height : FlowState → ℕ → ℕ → Option FlowState
record_height s target_idx out_height = elim (known_height s.height_at target_idx) [
  | none ↦ some (record {
    work = s.work ++ target_idx ∷ [];
    height_at = set s.height_at target_idx (some out_height);
  })
  | some known ↦ if known == out_height then some s else none
]

module _ (c : Decoded) where
  unfoldable pub add_successor : FlowState → Arrival → Option FlowState
  add_successor s (target_pc, out_height) =
      if target_pc == c.code_size
      then some s
      else insn_at c.pc_to_index target_pc >>= λ idx. record_height s idx out_height

  -- The calls of `add_successor` that one round of the loop makes, in order.
  unfoldable pub add_successors : FlowState → List Arrival → Option FlowState
  add_successors s [] = some s
  add_successors s (a ∷ rest) = add_successor s a >>= λ s'. add_successors s' rest

  -- The arguments of those calls for an iterator opcode with the branch behind it. All checks of
  -- the source stand before its first call.
  unfoldable pub iterator_arrivals : ℕ → InsnInfo → ℕ → Option (List Arrival)
  iterator_arrivals idx insn in_height = do
    guard (not (ltb in_height 2))
    branch ← get_elem? c.insns (idx + 1)
    guard (branch.pc == insn.pc + insn.size && is_one_of branch.op conditional_jumps)
    let true_height = in_height + (if insn.op == op_iter_next then 1 else 2)
    let target = jump_target_after_operand branch.operand_pc 2 branch.jump_a
    some ((to_size target, in_height) ∷ (branch.pc + branch.size, true_height) ∷ [])

  -- `SETUP_TRY`: the fall-through, then the handlers that are not the next instruction or the end.
  unfoldable pub handler_arrival : ℤ → ℕ → ℕ → List Arrival
  handler_arrival target next_pc height =
      if not (eqb_ℤ target (pos next_pc)) && not (eqb_ℤ target (pos c.code_size))
      then (to_size target, height) ∷ []
      else []

  unfoldable pub plain_arrivals : InsnInfo → ℕ → List Arrival
  unfolding handler_arrival
  plain_arrivals insn out_height =
      let next_pc = insn.pc + insn.size in
      let target = jump_target_after_operand insn.operand_pc 2 insn.jump_a in
      let catch_target = jump_target_after_operand insn.operand_pc 4 insn.jump_a in
      let finally_target = jump_target_after_operand insn.operand_pc 4 insn.jump_b in
      if is_one_of insn.op (op_return ∷ op_throw ∷ op_self_tail_call ∷ [])
      then []
      else if insn.op == op_jump
      then (to_size target, out_height) ∷ []
      else if is_one_of insn.op conditional_jumps
      then (to_size target, out_height) ∷ (next_pc, out_height) ∷ []
      else if insn.op == op_setup_try
      then (next_pc, out_height)
        ∷ (handler_arrival catch_target next_pc (out_height + 1)
            ++ handler_arrival finally_target next_pc out_height)
      else (next_pc, out_height) ∷ []

  unfoldable pub arrivals : ℕ → InsnInfo → ℕ → Option (List Arrival)
  arrivals idx insn in_height =
      if is_one_of insn.op (op_iter_next ∷ op_iter_next_kv ∷ [])
      then iterator_arrivals idx insn in_height
      else stack_effect insn in_height >>= λ out_height. some (plain_arrivals insn out_height)

  -- One round, for the index taken from the queue.
  unfoldable pub visit : FlowState → ℕ → Option FlowState
  visit s idx = do
    insn ← get_elem? c.insns idx
    in_height ← known_height s.height_at idx
    out ← arrivals idx insn in_height
    add_successors s out

  unfoldable pub flow_loop : ℕ → FlowState → FlowResult
  flow_loop zero s = elim s.work [ [] ↦ accepted s.height_at | _ ∷ _ ↦ out_of_fuel ]
  flow_loop (suc fuel) s = elim s.work [
    | [] ↦ accepted s.height_at
    | idx ∷ rest ↦ elim (visit (record s { work = rest }) idx) [
      | none ↦ rejected
      | some s' ↦ flow_loop fuel s'
    ]
  ]

  unfoldable pub flow_start : FlowState
  flow_start = record {
    work = 0 ∷ [];
    height_at = set (replicate (length c.insns) none) 0 (some 0);
  }

  -- Each instruction enters the queue once, so as many rounds as instructions are enough.
  unfoldable pub verify_stack_flow : FlowResult
  verify_stack_flow = elim c.insns [
    | [] ↦ accepted []
    | _ ∷ _ ↦ flow_loop (length c.insns) flow_start
  ]
