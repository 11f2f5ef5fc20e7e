-- ===== src/Vm/Arrivals.antt =====
-- bytecode_verify.h: where the verifier lets each kind of instruction go.
use nari.Prelude.{
  ℕ, suc, ◌+◌, ◌≤◌, ◌≡◌, ◌⊎◌, inl, inr, arith, true, false, not, ◌&&◌, List, [], ◌∷◌, some,
  get_elem?, ◌==◌, is_one_of, ltb, >>=-eq-some, guard, guard-eq-some,
}
use nari.Bytecode.OpCode
use nari.Verifier.Insn.{
  InsnInfo, stack_effect, conditional_jumps, jump_target_after_operand, to_size,
}
use nari.Verifier.Flow.{Decoded, Arrival, arrivals, iterator_arrivals, plain_arrivals}
use nari.Vm.Control.{iterators, value_count, is_plain}

module _ (d : Decoded) where
  abbrev pub target_of : InsnInfo → ℕ
  target_of i = to_size (jump_target_after_operand i.operand_pc 2 i.jump_a)

  pub plain_arrivals-fall :
      (i : InsnInfo) (h : ℕ)
      → is_plain i.op ≡ true
      → (i.op == OpCode.op_setup_try) ≡ false
      → plain_arrivals d i h ≡ (i.pc + i.size, h) ∷ []
  unfolding plain_arrivals
  plain_arrivals-fall i h p s = ground arith

  pub plain_arrivals-jump :
      (i : InsnInfo) (h : ℕ) → i.op ≡ OpCode.op_jump → plain_arrivals d i h ≡ (target_of i, h) ∷ []
  unfolding plain_arrivals
  plain_arrivals-jump i h e = ground arith

  pub plain_arrivals-cond :
      (i : InsnInfo) (h : ℕ)
      → is_one_of i.op conditional_jumps ≡ true
      → plain_arrivals d i h ≡ (target_of i, h) ∷ (i.pc + i.size, h) ∷ []
  unfolding plain_arrivals
  plain_arrivals-cond i h e = ground arith

  pub arrivals-plain :
      (k : ℕ) (i : InsnInfo) (h : ℕ) {out : List Arrival}
      → is_one_of i.op iterators ≡ false
      → arrivals d k i h ≡ some out
      → (h' : ℕ) × (stack_effect i h ≡ some h') × (out ≡ plain_arrivals d i h')
  unfolding arrivals
  arrivals-plain k i h e a =
      let (h', effect, same) = >>=-eq-some (stack_effect i h) _ (rw e at a) in (h', effect, cc)

  pub record IsIteration (k : ℕ) (i : InsnInfo) (h : ℕ) (out : List Arrival) : Type 0 where
    pub branch : InsnInfo
    pub found : get_elem? d.insns (k + 1) ≡ some branch
    pub enough : 2 ≤ h
    pub follows : branch.pc ≡ i.pc + i.size
    pub conditional : is_one_of branch.op conditional_jumps ≡ true
    pub goes : out ≡ (target_of branch, h) ∷ (branch.pc + branch.size, h + value_count i.op) ∷ []

  pub arrivals-iterator :
      (k : ℕ) (i : InsnInfo) (h : ℕ) {out : List Arrival}
      → is_one_of i.op iterators ≡ true
      → arrivals d k i h ≡ some out
      → IsIteration k i h out
  unfolding arrivals iterator_arrivals
  arrivals-iterator k i h e a =
      let (_, enough, a1) = >>=-eq-some (guard (not (ltb h 2))) _ (rw e at a) in
      let (branch, found, a2) = >>=-eq-some (get_elem? d.insns (k + 1)) _ a1 in
      let (_, shape, a3) =
        >>=-eq-some (guard (branch.pc == i.pc + i.size && is_one_of branch.op conditional_jumps)) _
          a2 in
      let fits = guard-eq-some _ shape in
      record {
        branch = branch;
        found = found;
        enough = let e2 = guard-eq-some (not (ltb h 2)) enough in ground arith;
        follows = ground arith;
        conditional = ground arith;
        goes = cc;
      }

conditional_cases :
    (op : ℕ)
    → is_one_of op conditional_jumps ≡ true
    → (op ≡ OpCode.op_jump_if_false) ⊎ (op ≡ OpCode.op_jump_if_true) ⊎ (op ≡ OpCode.op_jump_if_none)
conditional_cases op h = ground arith

pub effect_of_cond :
    (i : InsnInfo) (h h' : ℕ)
    → is_one_of i.op conditional_jumps ≡ true
    → stack_effect i h ≡ some h'
    → h ≡ suc h'
unfolding stack_effect
effect_of_cond i h h' c s = elim (conditional_cases i.op c) [
  | inl e ↦ ground (arith, rw (e, stack_effect) at s)
  | inr (inl e) ↦ ground (arith, rw (e, stack_effect) at s)
  | inr (inr e) ↦ ground (arith, rw (e, stack_effect) at s)
]

pub effect_of_jump : (i : InsnInfo) (h : ℕ) → i.op ≡ OpCode.op_jump → stack_effect i h ≡ some h
unfolding stack_effect
effect_of_jump i h e = rw (e, stack_effect)
