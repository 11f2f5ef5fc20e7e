-- ===== src/Vm/Gaps.antt =====
-- Where the verifier and the interpreter differ: the branch behind an iterator, and SETUP_TRY.
use nari.Prelude.{
  ℕ, suc, ◌+◌, ◌-◌, ◌≤◌, ◌≡◌, refl, ap, ◌∙◌, arith, true, false, [], ◌∷◌, some, drop, drop-add,
  get_elem?, is_one_of, le→ltb, ==_refl,
}
use nari.Prelude.Int.{ℤ, pos, negsuc, ◌+ℤ◌}
use nari.Bytecode.Chunk.{Bytes}
use nari.Bytecode.OpCode
use nari.Verifier.Insn.{InsnInfo, read_i16_be, jump_target_after_operand, to_size}
use nari.Verifier.Flow.{Decoded, arrivals, iterator_arrivals}
use nari.Vm.Control.{
  Fetches, iterators, value_count, running, ends, branches, Reach, here, next, setup_try,
}
use nari.Vm.Arrivals.{target_of}

-- Let an iterator opcode at `pc` be followed by JUMP_IF_TRUE, with at least the array and the index on
-- the stack, and let the verifier have both as instructions `i` and `branch`. Then the interpreter can
-- come behind the branch with the height that it had at `pc`, while the verifier brings that place the
-- height with the pushed values.
pub iterator-jump_if_true :
    (code : Bytes) (pc op h : ℕ) (rest : Bytes)
    → Fetches code pc op (OpCode.op_jump_if_true ∷ rest)
    → is_one_of op iterators ≡ true
    → 2 ≤ h
    → (d : Decoded) (k : ℕ) (i branch : InsnInfo) → i.op ≡ op
    → i.pc + i.size ≡ pc + 1
    → get_elem? d.insns (k + 1) ≡ some branch
    → branch.op ≡ OpCode.op_jump_if_true
    → branch.pc ≡ pc + 1
    → branch.size ≡ 3
    → Reach code (running pc h) (running (pc + 1 + 3) h)
      × (arrivals d k i h ≡ some ((target_of d branch, h) ∷ (pc + 1 + 3, h + value_count op) ∷ []))
unfolding arrivals iterator_arrivals
iterator-jump_if_true code pc op h rest f iter enough d k i branch op_is behind found cond at_pc
      size =
    let fetched : Fetches code (pc + 1) OpCode.op_jump_if_true rest =
      drop-add pc 1 code ∙ ap (drop 1) f in
    let above : h + 1 ≡ suc h = omega arith in
    (
      next (next here (ends f iter enough)) (rw above (branches false fetched refl)),
      rw (op_is, iter, le→ltb h 2 enough, found, cond, at_pc, behind, size, ==_refl (pc + 1)),
    )

two_back :
    (pc n : ℕ) (rel : ℤ)
    → pos (pc + 1 + 4) +ℤ rel ≡ pos (n + 2)
    → to_size (pos (pc + 5 - 2) +ℤ rel) ≡ n
unfolding ◌+ℤ◌ to_size
two_back pc n (pos r) h = ground arith
two_back pc n (negsuc r) h = ground arith

-- Let the catch target that the verifier computes for SETUP_TRY at `pc` be n + 2. Then the catch
-- position that the interpreter installs is n, and its finally position is the one that the verifier
-- computes.
pub setup_try-jump_target :
    (pc depth n : ℕ) (rest : Bytes)
    → jump_target_after_operand (pc + 1) 4 (read_i16_be rest 0) ≡ pos (n + 2)
    → ((setup_try pc rest depth).catch_ip ≡ n)
      × ((setup_try pc rest depth).finally_ip
          ≡ to_size (jump_target_after_operand (pc + 1) 4 (read_i16_be rest 2)))
unfolding setup_try jump_target_after_operand to_size
setup_try-jump_target pc depth n rest h = (
  two_back pc n (read_i16_be rest 0) h,
  ap (λ p. to_size (pos p +ℤ read_i16_be rest 2)) (omega arith),
)
