-- ===== src/Vm/Safe.antt =====
-- Verified code has its operands: the heights that the verifier accepts are those of the interpreter,
-- for code whose iterators are followed by JUMP_IF_FALSE and which has no exception handlers.
use nari.Prelude.{
  ℕ, suc, ◌+◌, ◌≡◌, sym, ap, ◌∙◌, inl, inr, arith, Bool, true, false, List, ◌∷◌, Option, some,
  some_injective, length, length-drop, get_elem?, Bool-cases, is_one_of, if◌then◌else◌,
}
use nari.Bytecode.Chunk.{Bytes}
use nari.Bytecode.OpcodeInfo.{decoded_instruction_size}
use nari.Bytecode.OpCode
use nari.Verifier.Insn.{InsnInfo, conditional_jumps}
use nari.Verifier.Decode.{Limits}
use nari.Verifier.Flow.{Decoded, known_height}
use nari.Verifier.Decoding.Table.{IsTable}
use nari.Verifier.Fixpoint.Rounds.{Agrees}
use nari.Verifier.Fixpoint.Result.{IsClosed, Checked}
use nari.Vm.Control.{
  Fetches, iterators, value_count, jump_to, jumps_on, VmState, running, branching, is_plain, Step,
  plain, jump, taken, falls, iterates, ends, branches, catches, Reach, here, next, CanRun, IsSafe,
}
use nari.Vm.Actions.{run_actions, actions}
use nari.Vm.Located.{Located, Located-at, effect-actions, same_target, Located-size}
use nari.Vm.Arrivals.{
  plain_arrivals-fall, plain_arrivals-jump, plain_arrivals-cond, arrivals-plain, arrivals-iterator,
  effect_of_cond, effect_of_jump,
}
use nari.Vm.Emitted.{is_emitted, is_emitted-get_elem?, is_emitted-branch}

module _ {l : Limits} {code : Bytes} {d : Decoded} {height_at : List (Option ℕ)}
    (t : IsTable l code (length code) d.insns d.pc_to_index) (size : d.code_size ≡ length code)
    (c : IsClosed d height_at) (shape : is_emitted d.insns ≡ true) where
  -- The verifier's height is the interpreter's; between an iterator and its branch the flag and the
  -- values are on top of it.
  abbrev pub Inv : VmState → Type 0
  Inv (running pc h) = Agrees d height_at (pc, h)
  Inv (branching pc h flag) =
      (k : ℕ) × (i : InsnInfo) × (h0 : ℕ) × (get_elem? d.insns k ≡ some i)
      × (known_height height_at k ≡ some h0)
      × (is_one_of i.op iterators ≡ true)
      × (pc ≡ i.pc + i.size)
      × (h ≡ (if flag then h0 + value_count i.op + 1 else h0 + 1))

  -- What is known where the interpreter reads an opcode.
  record Here (pc h op : ℕ) (rest : Bytes) : Type 0 where
    k : ℕ
    i : InsnInfo
    located : Located l d pc op rest k i
    known : known_height height_at k ≡ some h
    checked : Checked d height_at k i h

  Here-at :
      (pc h op : ℕ) (rest : Bytes)
      → Fetches code pc op rest
      → Agrees d height_at (pc, h)
      → Here pc h op rest
  Here-at pc h op rest f (inl end) = absurd (omega (arith, ap length f, length-drop pc code, size))
  Here-at pc h op rest f (inr (k, at_pc, known)) =
      let (i, found, p) = t.positions pc k at_pc in
      record {
        k = k;
        i = i;
        located = Located-at t k pc op rest i found p f;
        known = known;
        checked = c.closed k i h known found;
      }

  same_op : {pc h op : ℕ} {rest : Bytes} (x : Here pc h op rest) → x.i.op ≡ op
  same_op x = x.located.located.op_here

  plain-Inv :
      (pc h h' op : ℕ) (rest : Bytes)
      → Here pc h op rest
      → is_plain op ≡ true
      → run_actions (actions op rest) h ≡ some h'
      → Agrees d height_at (pc + decoded_instruction_size (op ∷ rest), h')
  plain-Inv pc h h' op rest x p s =
      let (out, goes, all) = x.checked in
      let still : is_one_of x.i.op iterators ≡ false = rw (same_op x) (ground arith) in
      let (h1, effect, single) = arrivals-plain d x.k x.i h still goes in
      let same_h : h1 ≡ h' = some_injective (sym (effect-actions h h1 x.located effect) ∙ s) in
      let only =
        plain_arrivals-fall d x.i h1 (rw (same_op x) p)
          (is_emitted-get_elem? d.insns x.k x.i shape x.located.found) in
      rw (← x.located.at_pc, ← x.located.located.size, ← same_h) (rw (single ∙ only) at all).0

  jump-Inv :
      (pc h op : ℕ) (rest : Bytes)
      → Here pc h op rest
      → op ≡ OpCode.op_jump
      → Agrees d height_at (jump_to pc rest, h)
  jump-Inv pc h op rest x e =
      let (out, goes, all) = x.checked in
      let op_is = same_op x ∙ e in
      let (h1, effect, single) = arrivals-plain d x.k x.i h (rw op_is) goes in
      let same_h : h1 ≡ h = cc (effect_of_jump x.i h op_is) in
      let only = plain_arrivals-jump d x.i h1 op_is in
      let target = same_target x.located (rw e) in
      rw (← target, ← same_h) (rw (single ∙ only) at all).0

  -- Both ways of a conditional jump.
  cond-Inv :
      (pc h op : ℕ) (rest : Bytes)
      → Here pc (suc h) op rest
      → is_one_of op conditional_jumps ≡ true
      → Agrees d height_at (jump_to pc rest, h) × Agrees d height_at (pc + 3, h)
  cond-Inv pc h op rest x e =
      let (out, goes, all) = x.checked in
      let cond : is_one_of x.i.op conditional_jumps ≡ true = rw (same_op x) e in
      let still : is_one_of x.i.op iterators ≡ false = ground arith in
      let (h1, effect, single) = arrivals-plain d x.k x.i (suc h) still goes in
      let same_h : h1 ≡ h = omega (arith, effect_of_cond x.i (suc h) h1 cond effect) in
      let both = rw (single ∙ plain_arrivals-cond d x.i h1 cond) at all in
      let target = same_target x.located (ground arith) in
      let behind : pc + 3 ≡ x.i.pc + x.i.size =
        omega (arith, x.located.at_pc, (Located-size x.located).0 e) in
      (rw (← target, ← same_h) both.0, rw (behind, ← same_h) both.1.0)

  iterator-Inv :
      (pc h op : ℕ) (rest : Bytes) (flag : Bool)
      → Here pc h op rest
      → is_one_of op iterators ≡ true
      → Inv (branching (pc + 1) (if flag then h + value_count op + 1 else h + 1) flag)
  iterator-Inv pc h op rest flag x e = (
    x.k,
    x.i,
    h,
    x.located.found,
    x.known,
    rw (same_op x) e,
    omega (arith, x.located.at_pc, (Located-size x.located).1 e),
    rw (same_op x),
  )

  -- The branch behind an iterator, which the verifier took with it.
  record Behind (pc h op : ℕ) (rest : Bytes) (flag : Bool) : Type 0 where
    h0 : ℕ
    count : ℕ
    height : h ≡ (if flag then h0 + count + 1 else h0 + 1)
    on_false : op ≡ OpCode.op_jump_if_false
    done : Agrees d height_at (jump_to pc rest, h0)
    value : Agrees d height_at (pc + 3, h0 + count)

  -- The instruction that the verifier has behind the iterator.
  branch_at :
      (pc h : ℕ) (flag : Bool)
      → Inv (branching pc h flag)
      → (op : ℕ) × (rest : Bytes) × Fetches code pc op rest × Behind pc h op rest flag
  branch_at pc h flag (k, i, h0, found, known, iter, at_pc, height) =
      let (out, goes, all) = c.closed k i h0 known found in
      let it = arrivals-iterator d k i h0 iter goes in
      let next_is : suc k ≡ k + 1 = omega arith in
      let at_branch : it.branch.pc ≡ pc = it.follows ∙ sym at_pc in
      let source = (t.entries (k + 1) it.branch it.found).source in
      let fetched : Fetches code pc source.op source.rest = rw (← at_branch) source.here in
      let x =
        Located-at {d = d} t (k + 1) pc source.op source.rest it.branch it.found at_branch
          fetched in
      let on_false =
        is_emitted-branch d.insns k i it.branch shape found iter (rw next_is it.found) in
      let op_is : source.op ≡ OpCode.op_jump_if_false = sym x.located.op_here ∙ on_false in
      let both = rw it.goes at all in
      let behind : pc + 3 ≡ it.branch.pc + it.branch.size =
        omega (arith, at_branch, (Located-size x).0 (rw op_is)) in
      (
        source.op,
        source.rest,
        fetched,
        record {
          h0 = h0;
          count = value_count i.op;
          height = height;
          on_false = op_is;
          done = rw (← same_target x (rw op_is)) both.0;
          value = rw behind both.1.0;
        },
      )

  -- The bytes at one position are what they are.
  same_fetch :
      (pc op op' : ℕ) (rest rest' : Bytes)
      → Fetches code pc op rest
      → Fetches code pc op' rest'
      → (op ≡ op') × (rest ≡ rest')
  same_fetch pc op op' rest rest' f g = let both = sym f ∙ g in ground arith

  branches-Inv :
      (pc h op : ℕ) (rest : Bytes) (flag : Bool)
      → Fetches code pc op rest
      → Inv (branching pc (suc h) flag)
      → Agrees d height_at ((if jumps_on op flag then jump_to pc rest else pc + 3), h)
  branches-Inv pc h op rest flag f inv =
      let (op', rest', f', x) = branch_at pc (suc h) flag inv in
      let (same, same_rest) = same_fetch pc op op' rest rest' f f' in
      let is_false = same ∙ x.on_false in
      elim (Bool-cases flag) [
        | inl e ↦
            let height : h ≡ x.h0 + x.count = omega (arith, rw e at x.height) in
            rw (e, is_false, height) x.value
        | inr e ↦
            let height : h ≡ x.h0 = omega (arith, rw e at x.height) in
            rw (e, is_false, height, same_rest) x.done
      ]

  Step-Inv : {s u : VmState} → Step code s u → Inv s → Inv u
  Step-Inv (plain {pc} {h} {h'} {op} {rest} f p e) inv =
      plain-Inv pc h h' op rest (Here-at pc h op rest f inv) p e
  Step-Inv (jump {pc} {h} {op} {rest} f e) inv =
      jump-Inv pc h op rest (Here-at pc h op rest f inv) e
  Step-Inv (taken {pc} {h} {op} {rest} f e) inv =
      (cond-Inv pc h op rest (Here-at pc (suc h) op rest f inv) e).0
  Step-Inv (falls {pc} {h} {op} {rest} f e) inv =
      (cond-Inv pc h op rest (Here-at pc (suc h) op rest f inv) e).1
  Step-Inv (iterates {pc} {h} {op} {rest} f e _) inv =
      iterator-Inv pc h op rest true (Here-at pc h op rest f inv) e
  Step-Inv (ends {pc} {h} {op} {rest} f e _) inv =
      iterator-Inv pc h op rest false (Here-at pc h op rest f inv) e
  Step-Inv (branches {pc} {h} {op} {rest} flag f _) inv = branches-Inv pc h op rest flag f inv
  Step-Inv (catches {pc} {h} {op} {rest} f e _) inv =
      let x = Here-at pc h op rest f inv in
      let never = is_emitted-get_elem? d.insns x.k x.i shape x.located.found in
      absurd (cc (rw (same_op x, e) at never))

  pub Reach-Inv : {s u : VmState} → Reach code s u → Inv s → Inv u
  Reach-Inv here inv = inv
  Reach-Inv (next r step) inv = Step-Inv step (Reach-Inv r inv)

  Here-CanRun :
      (pc h op : ℕ) (rest : Bytes) → Fetches code pc op rest → Here pc h op rest → CanRun code pc h
  Here-CanRun pc h op rest f x =
      let (out, goes, all) = x.checked in
      elim (Bool-cases (is_one_of x.i.op iterators)) [
        | inl e ↦
            let it = arrivals-iterator d x.k x.i h e goes in
            (op, rest, f, inl (rw (← same_op x) e, it.enough))
        | inr e ↦
            let (h1, effect, _) = arrivals-plain d x.k x.i h e goes in
            (op, rest, f, inr (h1, effect-actions h h1 x.located effect))
      ]

  pub Inv-IsSafe : (s : VmState) → Inv s → IsSafe code s
  Inv-IsSafe (running pc h) (inl end) = inl (end ∙ size)
  Inv-IsSafe (running pc h) (inr (k, at_pc, known)) =
      let (i, found, p) = t.positions pc k at_pc in
      let source = (t.entries k i found).source in
      let f : Fetches code pc source.op source.rest = rw (← p) source.here in
      inr (
        Here-CanRun pc h source.op source.rest f
          (Here-at pc h source.op source.rest f (inr (k, at_pc, known))))
  Inv-IsSafe (branching pc h flag) inv =
      let (op, rest, f, x) = branch_at pc h flag inv in
      (
        elim (Bool-cases flag) [
          | inl e ↦ omega (arith, rw e at x.height)
          | inr e ↦ omega (arith, rw e at x.height)
        ],
        (op, rest, f, rw x.on_false),
      )
