-- ===== src/Vm/Shapes.antt =====
-- The table of the verifier against the interpreter: where the verifier lets an opcode through, the
-- interpreter has the values that it takes, and leaves the height that the verifier has.
use nari.Prelude.{
  ℕ, ◌+◌, ◌-◌, ◌*◌, ◌<◌, ◌≤◌, ◌≡◌, refl, sym, ap, ◌∙◌, inl, inr, arith, Bool, true, false, not,
  ◌&&◌, ◌||◌, List, [], ◌∷◌, Option, none, some, ◌==◌, ==→eq, is_one_of, get_or, Bool-cases,
  all_below, all_below_at, if◌then◌else◌, some_injective, >>=-eq-some,
}
use nari.Bytecode.Chunk.{Bytes}
use nari.Bytecode.OpCode
use nari.Verifier.Insn.{
  InsnInfo, read_u16_be, set_delta, stack_effect, loads, stores, unaries, binaries,
  conditional_jumps, neutrals,
}
use nari.Bytecode.OpcodeInfo.{decoded_instruction_size}
use nari.Prelude.Int.{pos}
use nari.Verifier.Decode.{with_operands}
use nari.Vm.Actions.{
  Action, peek_at, pop_one, push_one, drop_many, act, run_actions, is_counted, counted_actions,
  fixed_actions, actions,
}

-- The instruction with the operands that the interpreter reads.
abbrev pub operands_at : ℕ → ℕ → Bytes → InsnInfo
operands_at pc op rest =
    with_operands
      (record {
        pc = pc;
        op = op;
        operand_pc = pc + 1;
        size = decoded_instruction_size (op ∷ rest);
        jump_a = pos 0;
        jump_b = pos 0;
        u16_a = 0;
        u8_a = 0;
      })
      rest

-- The kinds of rows of the table.
data Shape : Type 0 where
  fixed : (pops pushes : ℕ) → Shape
  neutral array object call tail construct no_shape : Shape

-- The rows of the table in its order: the first whose test holds has the shape.
unfoldable rows : ℕ → List (Bool × Shape)
rows op =
    (is_one_of op loads, fixed 0 1)
    ∷ (is_one_of op stores, fixed 1 1)
    ∷ (is_one_of op (OpCode.op_pop ∷ OpCode.op_throw ∷ []), fixed 1 0)
    ∷ (op == OpCode.op_dup, fixed 1 2)
    ∷ (is_one_of op unaries, fixed 1 1)
    ∷ (is_one_of op (OpCode.op_make_iterator ∷ OpCode.op_make_iterator_kv ∷ []), fixed 1 2)
    ∷ (is_one_of op binaries, fixed 2 1)
    ∷ (op == OpCode.op_set_index, fixed 3 1)
    ∷ (is_one_of op (OpCode.op_set_property ∷ OpCode.op_js_set_prop_static ∷ []), fixed 2 1)
    ∷ (op == OpCode.op_js_postinc, fixed 1 1)
    ∷ (op == OpCode.op_close_upvalues, fixed 0 0)
    ∷ (op == OpCode.op_make_array, array)
    ∷ (op == OpCode.op_make_object, object)
    ∷ (op == OpCode.op_call, call)
    ∷ (op == OpCode.op_self_tail_call, tail)
    ∷ (op == OpCode.op_new_instance, construct)
    ∷ (op == OpCode.op_call_method, call)
    ∷ (op == OpCode.op_call_spread, fixed 2 1)
    ∷ (op == OpCode.op_make_closure, fixed 0 1)
    ∷ (is_one_of op (OpCode.op_iter_next ∷ OpCode.op_iter_next_kv ∷ []), no_shape)
    ∷ (is_one_of op conditional_jumps, fixed 1 0)
    ∷ (is_one_of op neutrals, neutral)
    ∷ (op == OpCode.op_return, fixed 1 0)
    ∷ []

unfoldable choose {ℓ} : {A : Type ℓ} → (Shape → A) → List (Bool × Shape) → A
choose f [] = f no_shape
choose f ((c, x) ∷ rest) = if c then f x else choose f rest

unfoldable shape : ℕ → Shape
shape op = choose (λ s. s) (rows op)

abbrev effect_by : Shape → InsnInfo → ℕ → Option ℕ
effect_by (fixed pops pushes) insn h = set_delta h pops pushes
effect_by neutral insn h = some h
effect_by array insn h = set_delta h insn.u16_a 1
effect_by object insn h = set_delta h (insn.u16_a * 2) 1
effect_by call insn h = set_delta h (insn.u8_a + 1) 1
effect_by tail insn h = set_delta h insn.u8_a 0
effect_by construct insn h = set_delta h insn.u8_a 1
effect_by no_shape insn h = none

choose-if {ℓ} :
    {A : Type ℓ} (f : Shape → A) (table : List (Bool × Shape))
    → choose f table ≡ f (choose (λ s. s) table)
unfolding choose
choose-if f [] = refl
choose-if f ((true, x) ∷ rest) = refl
choose-if f ((false, x) ∷ rest) = choose-if f rest

stack_effect-shape :
    (insn : InsnInfo) (h : ℕ) → stack_effect insn h ≡ effect_by (shape insn.op) insn h
unfolding stack_effect shape rows choose
stack_effect-shape insn h = choose-if (λ s. effect_by s insn h) (rows insn.op)

abbrev yields : Option ℕ → ℕ → Bool
yields none n = false
yields (some m) n = m == n

-- What the interpreter does with the fewest values that the row asks for.
abbrev matches : ℕ → Shape → Bool
matches op (fixed pops pushes) =
    not (is_counted op) && yields (run_actions (fixed_actions op) pops) pushes
matches op neutral = not (is_counted op) && yields (run_actions (fixed_actions op) 0) 0
matches op array = op == OpCode.op_make_array
matches op object = op == OpCode.op_make_object
matches op call = op == OpCode.op_call || op == OpCode.op_call_method
matches op tail = op == OpCode.op_self_tail_call
matches op construct = op == OpCode.op_new_instance
matches op no_shape = true

matches_table : all_below 87 (λ op. matches op (shape op)) ≡ true
unfolding all_below shape rows choose run_actions act fixed_actions
matches_table = refl

-- Values below those that an opcode takes stay where they are.
act-frame : (a : Action) (k n m : ℕ) → act a n ≡ some m → act a (k + n) ≡ some (k + m)
unfolding act
act-frame (peek_at i) k n m e = ground arith
act-frame pop_one k n m e = ground arith
act-frame push_one k n m e = ground arith
act-frame (drop_many i) k n m e = ground arith

run_actions-frame :
    (todo : List Action) (k n m : ℕ)
    → run_actions todo n ≡ some m
    → run_actions todo (k + n) ≡ some (k + m)
unfolding run_actions
run_actions-frame [] k n m e = ap (λ x. some (k + x)) (some_injective e)
run_actions-frame (a ∷ rest) k n m e =
    let (n1, first, then_rest) = >>=-eq-some _ _ e in
    rw (act-frame a k n n1 first) (run_actions-frame rest k n1 m then_rest)

drop_push :
    (n h h' : ℕ) → set_delta h n 1 ≡ some h' → run_actions (drop_many n ∷ push_one ∷ []) h ≡ some h'
unfolding run_actions act
drop_push n h h' e = ground arith

drop_pop_push :
    (n h h' : ℕ)
    → set_delta h (n + 1) 1 ≡ some h'
    → run_actions (drop_many n ∷ pop_one ∷ push_one ∷ []) h ≡ some h'
unfolding run_actions act
drop_pop_push n h h' e = ground arith

drop_only : (n h h' : ℕ) → set_delta h n 0 ≡ some h' → run_actions (drop_many n ∷ []) h ≡ some h'
unfolding run_actions act
drop_only n h h' e = ground arith

-- The row of a shape and the actions that match it agree.
fixed_runs :
    (op pops pushes h h' : ℕ)
    → (not (is_counted op) && yields (run_actions (fixed_actions op) pops) pushes) ≡ true
    → set_delta h pops pushes ≡ some h'
    → run_actions (fixed_actions op) h ≡ some h'
fixed_runs op pops pushes h h' m e =
    let few : run_actions (fixed_actions op) pops ≡ some pushes =
      yields_some (run_actions (fixed_actions op) pops) pushes (ground arith) in
    let framed = run_actions-frame (fixed_actions op) (h - pops) pops pushes few in
    let enough : pops ≤ h = ground arith in
    let all : (h - pops) + pops ≡ h = omega arith in
    let left : (h - pops) + pushes ≡ h' = ground arith in rw (all, left) at framed
  where
    yields_some : (o : Option ℕ) (n : ℕ) → yields o n ≡ true → o ≡ some n
    yields_some none n y = absurd (cc)
    yields_some (some m) n y = ap some (==→eq m n y)

-- Where the verifier lets an opcode through, its values are there, and the interpreter's height
-- behind it is the verifier's.
pub stack_effect-actions :
    (pc op h h' : ℕ) (rest : Bytes)
    → op < 87
    → stack_effect (operands_at pc op rest) h ≡ some h'
    → run_actions (actions op rest) h ≡ some h'
unfolding actions counted_actions with_operands
stack_effect-actions pc op h h' rest small e =
    let by_shape = sym (stack_effect-shape (operands_at pc op rest) h) ∙ e in
    let entry = all_below_at 87 _ op matches_table small in along (shape op) entry by_shape
  where
    along :
        (s : Shape)
        → matches op s ≡ true
        → effect_by s (operands_at pc op rest) h ≡ some h'
        → run_actions (actions op rest) h ≡ some h'
    along (fixed pops pushes) m by =
        let still : is_counted op ≡ false = ground arith in
        rw still (fixed_runs op pops pushes h h' m by)
    along neutral m by =
        let still : is_counted op ≡ false = ground arith in
        rw still (fixed_runs op 0 0 h h' m (ground arith))
    along array m by =
        let e = ==→eq op OpCode.op_make_array m in
        rw e (drop_push (read_u16_be rest 0) h h' (rw e at by))
    along object m by =
        let e = ==→eq op OpCode.op_make_object m in
        rw e (drop_push (read_u16_be rest 0 * 2) h h' (rw e at by))
    along call m by = elim (Bool-cases (op == OpCode.op_call)) [
      | inl c ↦
          let e = ==→eq op OpCode.op_call c in
          rw e (drop_pop_push (get_or rest 0 0) h h' (rw e at by))
      | inr other ↦
          let e = ==→eq op OpCode.op_call_method (ground arith) in
          rw e (drop_pop_push (get_or rest 2 0) h h' (rw e at by))
    ]
    along tail m by =
        let e = ==→eq op OpCode.op_self_tail_call m in
        rw e (drop_only (get_or rest 0 0) h h' (rw e at by))
    along construct m by =
        let e = ==→eq op OpCode.op_new_instance m in
        rw e (drop_push (get_or rest 2 0) h h' (rw e at by))
    along no_shape m by = absurd (cc)
