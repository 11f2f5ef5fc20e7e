-- ===== src/Verifier/Fixpoint/Result.antt =====
-- bytecode_verify.h: the loop of `verify_stack_flow` ends, and the heights that it accepts are closed
-- under control flow: every instruction with a height has its operands, and what it goes to has the
-- height that it leaves.
use nari.Prelude.{
  ℕ, zero, suc, ◌+◌, ◌≤◌, ◌<◌, ◌≡◌, sym, ap, ◌∙◌, ◌≢◌, ◌⊎◌, inl, inr, arith, List, [], ◌∷◌, Option,
  some, none, length, length-set, length-replicate, get_elem?, replicate, All, List-cases,
  Bool-cases, Option-cases, ◌==◌, ==→eq, ==→ne, >>=-eq-some,
}
use nari.Verifier.Insn.{InsnInfo}
use nari.Verifier.Flow.{
  Decoded, FlowState, Arrival, accepted, rejected, out_of_fuel, insn_at, known_height, arrivals,
  visit, flow_loop, flow_start, verify_stack_flow,
}
use nari.Verifier.Fixpoint.Queue.{
  InQueue, unknown, unknown-set, unknown-replicate, length-unknowns, known_height-replicate,
  known_height-set_self, known_height-set_ne,
}
use nari.Verifier.Fixpoint.Rounds.{Extends, Agrees, Agrees-Extends, add_successors-Extends}

-- Instruction `i` at index `k` runs at height `h`, and every arrival has the height it brings.
abbrev pub Checked : Decoded → List (Option ℕ) → ℕ → InsnInfo → ℕ → Type 0
Checked c height_at k i h =
    (out : List Arrival) × (arrivals c k i h ≡ some out) × All (Agrees c height_at) out

-- The heights that the pass accepts.
pub record IsClosed (c : Decoded) (height_at : List (Option ℕ)) : Type 0 where
  pub entry : c.insns ≡ [] ⊎ (known_height height_at 0 ≡ some 0)
  pub closed :
      (k : ℕ) (i : InsnInfo) (h : ℕ)
      → known_height height_at k ≡ some h
      → get_elem? c.insns k ≡ some i
      → Checked c height_at k i h

module _ (c : Decoded) where
  record FlowInv (s : FlowState) : Type 0 where
    size : length s.height_at ≡ length c.insns
    closed :
        (k : ℕ) (i : InsnInfo) (h : ℕ)
        → known_height s.height_at k ≡ some h
        → get_elem? c.insns k ≡ some i
        → InQueue k s.work ⊎ Checked c s.height_at k i h

  flow_loop-empty :
      (fuel : ℕ) (s : FlowState) → s.work ≡ [] → flow_loop c fuel s ≡ accepted s.height_at
  flow_loop-empty zero s e = unfold flow_loop in rw (e, flow_loop)
  flow_loop-empty (suc fuel) s e = unfold flow_loop in rw (e, flow_loop)

  -- A round, with what the visit of the first index gives.
  flow_loop-round :
      (fuel : ℕ) (s : FlowState) (idx : ℕ) (rest : List ℕ)
      → s.work ≡ idx ∷ rest
      → flow_loop c (suc fuel) s ≡ (elim (visit c (record s { work = rest }) idx) [
        | none ↦ rejected
        | some t ↦ flow_loop c fuel t
      ])
  flow_loop-round fuel s idx rest e = unfold flow_loop in rw (e, flow_loop)

  All-Extends :
      (s t : FlowState) (out : List Arrival)
      → Extends s t
      → All (Agrees c s.height_at) out
      → All (Agrees c t.height_at) out
  All-Extends s t [] x all = tt
  All-Extends s t (a ∷ out) x all = (Agrees-Extends c s t a x all.0, All-Extends s t out x all.1)

  module _ (valid : (q k : ℕ) → insn_at c.pc_to_index q ≡ some k → k < length c.insns) where
    record IsRound (s t : FlowState) (idx : ℕ) : Type 0 where
      extends : Extends s t
      checked :
          (i : InsnInfo) (h : ℕ)
          → known_height s.height_at idx ≡ some h
          → get_elem? c.insns idx ≡ some i
          → Checked c t.height_at idx i h

    visit-IsRound :
        (s t : FlowState) (idx : ℕ)
        → length s.height_at ≡ length c.insns
        → visit c s idx ≡ some t
        → IsRound s t idx
    unfolding visit
    visit-IsRound s t idx size e =
        let (insn, found, e1) = >>=-eq-some (get_elem? c.insns idx) _ e in
        let (in_height, known, e2) = >>=-eq-some (known_height s.height_at idx) _ e1 in
        let (out, goes, added) = >>=-eq-some (arrivals c idx insn in_height) _ e2 in
        let (x, all) = add_successors-Extends c (length c.insns) valid s t out size added in
        record {
          extends = x;
          checked = λ i h at_h at_i.
              let same_i : insn ≡ i = cc in
              let same_h : in_height ≡ h = cc in (out, rw (← same_i, ← same_h) goes, all);
        }

    FlowInv-step :
        (s t : FlowState) (idx : ℕ) (rest : List ℕ)
        → s.work ≡ idx ∷ rest
        → FlowInv s
        → IsRound (record s { work = rest }) t idx
        → FlowInv t
    FlowInv-step s t idx rest e v r = record {
      size = r.extends.size ∙ v.size;
      closed = λ k i h known found. elim (r.extends.added k h known) [
        | inr new ↦ inl new
        | inl old ↦ elim (rw e at (v.closed k i h old found)) [
          | inr (out, goes, all) ↦
              inr (out, goes, All-Extends (record s { work = rest }) t out r.extends all)
          | inl (inl here) ↦ inr (rw here (r.checked i h (rw here at old) (rw here at found)))
          | inl (inr waiting) ↦ inl (r.extends.queued k waiting)
        ]
      ];
    }

    -- What the end of the loop keeps of the state `s`, and what holds there.
    abbrev Ends : FlowState → List (Option ℕ) → Type 0
    Ends s height_at =
        ((k h : ℕ) → known_height s.height_at k ≡ some h → known_height height_at k ≡ some h)
        × ((k : ℕ) (i : InsnInfo) (h : ℕ)
            → known_height height_at k ≡ some h
            → get_elem? c.insns k ≡ some i
            → Checked c height_at k i h)

    done_inv : (s : FlowState) → s.work ≡ [] → FlowInv s → Ends s s.height_at
    done_inv s e v = (
      λ k h known. known,
      λ k i h known found. elim (rw e at (v.closed k i h known found)) [
        | inl q ↦ absurd q
        | inr ok ↦ ok
      ],
    )

    flow_loop-accepted :
        (fuel : ℕ) (s : FlowState) (height_at : List (Option ℕ))
        → FlowInv s
        → flow_loop c fuel s ≡ accepted height_at
        → Ends s height_at
    flow_loop-accepted zero s height_at v e = elim (List-cases s.work) [
      | inl empty ↦
          let same : s.height_at ≡ height_at = cc (flow_loop-empty zero s empty) in
          rw (← same) (done_inv s empty v)
      | inr (idx, rest, more) ↦ absurd (unfold flow_loop in cc (rw (more, flow_loop) at e))
    ]
    flow_loop-accepted (suc fuel) s height_at v e = elim (List-cases s.work) [
      | inl empty ↦
          let same : s.height_at ≡ height_at = cc (flow_loop-empty (suc fuel) s empty) in
          rw (← same) (done_inv s empty v)
      | inr (idx, rest, more) ↦
          let round = flow_loop-round fuel s idx rest more in
          elim (Option-cases (visit c (record s { work = rest }) idx)) [
            | inl failed ↦ absurd (cc (rw failed at round))
            | inr (t, visited) ↦
                let r = visit-IsRound (record s { work = rest }) t idx v.size visited in
                let (kept, closed) =
                  flow_loop-accepted fuel t height_at (FlowInv-step s t idx rest more v r)
                    (sym (rw visited at round) ∙ e) in
                (λ k h known. kept k h (r.extends.kept k h known), closed)
          ]
    ]

    -- The queue and the instructions without a height shrink by one in each round.
    flow_loop_ends :
        (fuel : ℕ) (s : FlowState)
        → length s.height_at ≡ length c.insns
        → unknown s.height_at + length s.work ≤ fuel
        → flow_loop c fuel s ≢ out_of_fuel
    flow_loop_ends zero s size h e = elim (List-cases s.work) [
      | inl empty ↦ cc (flow_loop-empty zero s empty)
      | inr (idx, rest, more) ↦ absurd (omega (arith, ap length more))
    ]
    flow_loop_ends (suc fuel) s size h e = elim (List-cases s.work) [
      | inl empty ↦ cc (flow_loop-empty (suc fuel) s empty)
      | inr (idx, rest, more) ↦
          let round = flow_loop-round fuel s idx rest more in
          elim (Option-cases (visit c (record s { work = rest }) idx)) [
            | inl failed ↦ cc (rw failed at round)
            | inr (t, visited) ↦
                let r = visit-IsRound (record s { work = rest }) t idx size visited in
                flow_loop_ends fuel t (r.extends.size ∙ size)
                  (omega (arith, ap length more, r.extends.work)) (sym (rw visited at round) ∙ e)
          ]
    ]

    start_size : length (flow_start c).height_at ≡ length c.insns
    unfolding flow_start
    start_size = rw length-set (length-replicate (length c.insns) none)

    start_entry : 0 < length c.insns → known_height (flow_start c).height_at 0 ≡ some 0
    unfolding flow_start
    start_entry inside =
        known_height-set_self (replicate (length c.insns) none) 0 0
          (omega (arith, length-unknowns (length c.insns)))

    start_work :
        0 < length c.insns
        → unknown (flow_start c).height_at + length (flow_start c).work ≤ length c.insns
    unfolding flow_start
    start_work inside = omega (
      arith,
      unknown-replicate (length c.insns),
      length-unknowns (length c.insns),
      unknown-set (replicate (length c.insns) none) 0 0
          (omega (arith, length-unknowns (length c.insns)))
          (known_height-replicate (length c.insns) 0),
    )

    start_inv : 0 < length c.insns → FlowInv (flow_start c)
    unfolding flow_start
    start_inv inside = record {
      size = start_size;
      closed = λ k i h known found. elim (Bool-cases (0 == k)) [
        | inl here ↦ inl (inl (sym (==→eq 0 k here)))
        | inr other ↦ absurd (
            cc (
              known_height-replicate (length c.insns) k,
              known_height-set_ne (replicate (length c.insns) none) 0 k 0 (==→ne 0 k other),
            ))
      ];
    }

    started :
        (i : InsnInfo) (rest : List InsnInfo)
        → c.insns ≡ i ∷ rest
        → verify_stack_flow c ≡ flow_loop c (length c.insns) (flow_start c)
    started i rest e = unfold verify_stack_flow in ground (arith, e)

    nothing : c.insns ≡ [] → verify_stack_flow c ≡ accepted []
    nothing e = unfold verify_stack_flow in rw (e, verify_stack_flow)

    -- Where the index by position has indices of instructions only, the pass comes to a verdict: it takes
    -- at most one round for each instruction.
    pub verify_stack_flow-ne-out_of_fuel : verify_stack_flow c ≢ out_of_fuel
    verify_stack_flow-ne-out_of_fuel e = elim (List-cases c.insns) [
      | inl empty ↦ cc (nothing empty)
      | inr (i, rest, more) ↦
          flow_loop_ends (length c.insns) (flow_start c) start_size
            (start_work (omega (arith, ap length more))) (sym (started i rest more) ∙ e)
    ]

    -- Where the index by position has indices of instructions only, the heights that the pass accepts are
    -- closed: the entry has height 0, and an instruction with a height has the operands it needs, and
    -- brings every place that it goes to the height recorded there.
    pub verify_stack_flow-IsClosed :
        (height_at : List (Option ℕ))
        → verify_stack_flow c ≡ accepted height_at
        → IsClosed c height_at
    verify_stack_flow-IsClosed height_at e = elim (List-cases c.insns) [
      | inl empty ↦
          let same : [] ≡ height_at = cc (nothing empty) in
          rw (← same) (record { entry = inl empty; closed = λ k i h known found. absurd (cc) })
      | inr (i, rest, more) ↦
          let inside : 0 < length c.insns = omega (arith, ap length more) in
          let (kept, closed) =
            flow_loop-accepted (length c.insns) (flow_start c) height_at (start_inv inside)
              (sym (started i rest more) ∙ e) in
          record { entry = inr (kept 0 0 (start_entry inside)); closed = closed }
    ]
