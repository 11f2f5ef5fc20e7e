-- ===== src/Vm/Located.antt =====
-- The instruction that the interpreter reads at a position is the one that the verifier decoded there.
use nari.Prelude.{
  ℕ, ◌+◌, ◌≡◌, refl, sym, ap, ◌∙◌, ◌≢◌, inl, inr, arith, Bool, true, false, not, ◌&&◌, ◌∷◌, Option,
  some, none, length, drop, get_elem?, Bool-cases, ◌==◌, ==→eq, ==→ne, is_one_of, all_below,
  all_below_at, ◌||◌,
}
use nari.Bytecode.Chunk.{Bytes}
use nari.Bytecode.OpcodeInfo.{OpcodeInfo, opcode_info}
use nari.Serializer.RoundTrip.Rounds.{decoded-expanded, opcode_info-lt}
use nari.Bytecode.OpCode
use nari.Verifier.Insn.{
  InsnInfo, stack_effect, conditional_jumps, jump_target_after_operand, to_size,
}
use nari.Verifier.Decode.{Limits, decode_insn, with_operands}
use nari.Verifier.Flow.{Decoded}
use nari.Verifier.Decoding.Passed.{blank_insn, IsAt, decode_insn-Passed}
use nari.Verifier.Decoding.Table.{IsTable}
use nari.Vm.Control.{Fetches, jump_to, iterators}
use nari.Vm.Shapes.{operands_at, stack_effect-actions}
use nari.Vm.Actions.{run_actions, actions}

-- Decoded instruction `i` has index `k`, and is what stands at `pc`.
pub record Located (l : Limits) (d : Decoded) (pc op : ℕ) (rest : Bytes) (k : ℕ) (i : InsnInfo)
    : Type 0 where
  pub found : get_elem? d.insns k ≡ some i
  pub at_pc : i.pc ≡ pc
  pub decoded : decode_insn l pc op rest ≡ some i
  pub located : IsAt pc op rest i

module _ {l : Limits} {code : Bytes} {d : Decoded}
    (t : IsTable l code (length code) d.insns d.pc_to_index) where
  -- Where an instruction was decoded, the interpreter reads its bytes.
  pub Located-at :
      (k pc op : ℕ) (rest : Bytes) (i : InsnInfo)
      → get_elem? d.insns k ≡ some i
      → i.pc ≡ pc
      → Fetches code pc op rest
      → Located l d pc op rest k i
  Located-at k pc op rest i found p fetched =
      let source = (t.entries k i found).source in
      let bytes : source.op ∷ source.rest ≡ op ∷ rest =
        sym source.here ∙ ap (λ q. drop q code) p ∙ fetched in
      let same_op : source.op ≡ op = ground arith in
      let same_rest : source.rest ≡ rest = ground arith in
      record {
        found = found;
        at_pc = p;
        decoded = rw (← p, ← same_op, ← same_rest) source.decoded;
        located = rw (← p, ← same_op, ← same_rest) source.located;
      }

-- For an opcode other than MAKE_CLOSURE the decoder reads the operands that the interpreter reads.
pub decoded_operands :
    {l : Limits} {d : Decoded} {pc op k : ℕ} {rest : Bytes} {i : InsnInfo}
    → Located l d pc op rest k i
    → op ≢ OpCode.op_make_closure
    → i ≡ operands_at pc op rest
decoded_operands {l = l} {pc = pc} {op = op} {rest = rest} {i = i} x other =
    let passed = decode_insn-Passed l pc op rest i x.decoded in
    elim passed.checked [
      | inl (closure, _) ↦ absurd (other closure)
      | inr (_, _, is_it) ↦
          let read : i.size ≡ 1 + passed.row.operand_size =
            unfold with_operands in ap (λ (j : InsnInfo). j.size) is_it in
          is_it ∙ ap (λ s. with_operands (blank_insn pc op s) rest) (sym read ∙ x.located.size)
    ]

-- MAKE_CLOSURE pushes one value whatever its operands are.
closure_effect :
    (i : InsnInfo) (h : ℕ) → i.op ≡ OpCode.op_make_closure → stack_effect i h ≡ some (h + 1)
unfolding stack_effect
closure_effect i h e = rw (e, stack_effect) (ground arith)

pub same_effect :
    {l : Limits} {d : Decoded} {pc op k : ℕ} {rest : Bytes} {i : InsnInfo} (h : ℕ)
    → Located l d pc op rest k i
    → stack_effect i h ≡ stack_effect (operands_at pc op rest) h
same_effect {pc = pc} {op = op} {rest = rest} {i = i} h x =
    elim (Bool-cases (op == OpCode.op_make_closure)) [
      | inl closure ↦
          let e = ==→eq op OpCode.op_make_closure closure in
          closure_effect i h (x.located.op_here ∙ e)
          ∙ sym (closure_effect (operands_at pc op rest) h (unfold with_operands in e))
      | inr other ↦
          ap (λ j. stack_effect j h) (decoded_operands x (==→ne op OpCode.op_make_closure other))
    ]

-- The interpreter does with the stack what the verifier says of the decoded instruction.
pub effect-actions :
    {l : Limits} {d : Decoded} {pc op k : ℕ} {rest : Bytes} {i : InsnInfo} (h h' : ℕ)
    → Located l d pc op rest k i
    → stack_effect i h ≡ some h'
    → run_actions (actions op rest) h ≡ some h'
effect-actions {pc = pc} {op = op} {rest = rest} h h' x e =
    let a = x.located in
    let (row, known, _, _, _, _) = decoded-expanded op rest (omega (arith, a.size, a.positive)) in
    stack_effect-actions pc op h h' rest (opcode_info-lt op known) (sym (same_effect h x) ∙ e)

-- A jump of the interpreter goes to the target that the verifier computes.
pub same_target :
    {l : Limits} {d : Decoded} {pc op k : ℕ} {rest : Bytes} {i : InsnInfo}
    → Located l d pc op rest k i
    → is_one_of op (OpCode.op_jump ∷ conditional_jumps) ≡ true
    → to_size (jump_target_after_operand i.operand_pc 2 i.jump_a) ≡ jump_to pc rest
unfolding jump_target_after_operand jump_to with_operands
same_target {pc = pc} {op = op} {rest = rest} {i = i} x jumps =
    let other : op ≢ OpCode.op_make_closure = λ e. cc (rw e at jumps) in
    let reads : is_one_of op (OpCode.op_jump ∷ OpCode.op_setup_try ∷ conditional_jumps) ≡ true =
      ground arith in
    let is_it = decoded_operands x other in
    let behind : pc + 1 + 2 ≡ pc + 3 = omega arith in
    ap (λ (j : InsnInfo). to_size (jump_target_after_operand j.operand_pc 2 j.jump_a)) is_it
    ∙ rw (reads, behind)

abbrev has_operands : ℕ → Option OpcodeInfo → Bool
has_operands n none = false
has_operands n (some row) = row.operand_size == n && not row.variable_size

size_table :
    all_below 87 (λ op.
      (not (is_one_of op conditional_jumps) || has_operands 2 (opcode_info op))
      && (not (is_one_of op iterators) || has_operands 0 (opcode_info op)))
    ≡ true
unfolding all_below opcode_info
size_table = refl

-- A conditional jump has three bytes, an iterator one.
pub Located-size :
    {l : Limits} {d : Decoded} {pc op k : ℕ} {rest : Bytes} {i : InsnInfo}
    → Located l d pc op rest k i
    → (is_one_of op conditional_jumps ≡ true → i.size ≡ 3)
      × (is_one_of op iterators ≡ true → i.size ≡ 1)
Located-size {op = op} {rest = rest} {i = i} x =
    let a = x.located in
    let (row, e, _, _, _, fixed) = decoded-expanded op rest (omega (arith, a.size, a.positive)) in
    let entry = rw e at (all_below_at 87 _ op size_table (opcode_info-lt op e)) in
    (
      λ jumps.
          let r : has_operands 2 (some row) ≡ true = ground arith in
          omega (arith, a.size, fixed_size row 2 _ r fixed),
      λ iterates.
          let r : has_operands 0 (some row) ≡ true = ground arith in
          omega (arith, a.size, fixed_size row 0 _ r fixed),
    )
  where
    fixed_size :
        (row : OpcodeInfo) (n s : ℕ)
        → has_operands n (some row) ≡ true
        → (row.variable_size ≡ false → s ≡ 1 + row.operand_size)
        → s ≡ 1 + n
    fixed_size row n s r f = ground arith
