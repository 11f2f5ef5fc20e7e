-- ===== src/Verifier/Fixpoint/Rounds.antt =====
-- bytecode_verify.h: what `add_successor` does to the queue and to the table of heights.
use nari.Prelude.{
  ℕ, ◌+◌, ◌<◌, ◌≡◌, refl, sym, ap, ◌∙◌, ◌⊎◌, inl, inr, arith, List, [], ◌∷◌, ◌++◌, Option, some,
  none, length, length-append, length-set, set, All, Bool-cases, Option-cases, ◌==◌, ==→eq, ==→ne,
  >>=-eq-some,
}
use nari.Verifier.Flow.{
  Decoded, FlowState, Arrival, insn_at, known_height, record_height, add_successor, add_successors,
}
use nari.Verifier.Fixpoint.Queue.{
  InQueue, InQueue-append, InQueue-last, unknown, unknown-set, known_height-set_self,
  known_height-set_ne,
}

-- From `s` to `t` heights are only added, and what is added is queued.
pub record Extends (s t : FlowState) : Type 0 where
  pub size : length t.height_at ≡ length s.height_at
  pub kept : (k h : ℕ) → known_height s.height_at k ≡ some h → known_height t.height_at k ≡ some h
  pub added :
      (k h : ℕ)
      → known_height t.height_at k ≡ some h
      → (known_height s.height_at k ≡ some h) ⊎ InQueue k t.work
  pub queued : (k : ℕ) → InQueue k s.work → InQueue k t.work
  pub work : unknown t.height_at + length t.work ≡ unknown s.height_at + length s.work

pub Extends-refl : (s : FlowState) → Extends s s
Extends-refl s = record {
  size = refl;
  kept = λ k h e. e;
  added = λ k h e. inl e;
  queued = λ k q. q;
  work = refl;
}

pub Extends-trans : (s t u : FlowState) → Extends s t → Extends t u → Extends s u
Extends-trans s t u a b = record {
  size = b.size ∙ a.size;
  kept = λ k h e. b.kept k h (a.kept k h e);
  added = λ k h e. elim (b.added k h e) [
    | inr new ↦ inr new
    | inl old ↦ elim (a.added k h old) [ inl older ↦ inl older | inr new ↦ inr (b.queued k new) ]
  ];
  queued = λ k q. b.queued k (a.queued k q);
  work = b.work ∙ a.work;
}

module _ (c : Decoded) where
  -- The table of heights has the height of an arrival.
  abbrev pub Agrees : List (Option ℕ) → Arrival → Type 0
  Agrees height_at (q, h) =
      (q ≡ c.code_size)
      ⊎ ((k : ℕ) × (insn_at c.pc_to_index q ≡ some k) × (known_height height_at k ≡ some h))

  pub Agrees-Extends :
      (s t : FlowState) (a : Arrival) → Extends s t → Agrees s.height_at a → Agrees t.height_at a
  Agrees-Extends s t (q, h) x (inl end) = inl end
  Agrees-Extends s t (q, h) x (inr (k, at_q, known)) = inr (k, at_q, x.kept k h known)

  new_height :
      (s : FlowState) (k h : ℕ)
      → k < length s.height_at
      → known_height s.height_at k ≡ none
      → Extends s (record { work = s.work ++ k ∷ []; height_at = set s.height_at k (some h) })
  new_height s k h inside new = record {
    size = length-set s.height_at k (some h);
    kept = λ j x e. elim (Bool-cases (k == j)) [
      | inl same ↦ absurd (clash (==→eq k j same) new e)
      | inr other ↦ known_height-set_ne s.height_at k j h (==→ne k j other) ∙ e
    ];
    added = λ j x e. elim (Bool-cases (k == j)) [
      | inl same ↦ inr (rw (← ==→eq k j same) (InQueue-last k s.work))
      | inr other ↦ inl (sym (known_height-set_ne s.height_at k j h (==→ne k j other)) ∙ e)
    ];
    queued = λ j q. InQueue-append j s.work (k ∷ []) q;
    work = omega (arith, unknown-set s.height_at k h inside new, length-append s.work (k ∷ []));
  }
    where
      clash :
          {j x : ℕ}
          → k ≡ j
          → known_height s.height_at k ≡ none
          → known_height s.height_at j ≡ some x
          → ⊥
      clash e n m = cc

  record_height-Extends :
      (s t : FlowState) (k h : ℕ)
      → k < length s.height_at
      → record_height s k h ≡ some t
      → Extends s t × (known_height t.height_at k ≡ some h)
  record_height-Extends s t k h inside e = elim (Option-cases (known_height s.height_at k)) [
    | inl new ↦
        let made : record { work = s.work ++ k ∷ []; height_at = set s.height_at k (some h) } ≡ t =
          unfold record_height in cc (rw (new, record_height) at e) in
        rw (← made) (new_height s k h inside new, known_height-set_self s.height_at k h inside)
    | inr (x, old) ↦
        let same : (s ≡ t) × (x ≡ h) = unfold record_height in ground (arith, old) in
        rw (← same.0) (Extends-refl s, old ∙ ap some same.1)
  ]

  -- Every position in the index leads to an instruction, and there is a height for each.
  module _ (n : ℕ) (valid : (q k : ℕ) → insn_at c.pc_to_index q ≡ some k → k < n) where
    add_successor-Extends :
        (s t : FlowState) (a : Arrival)
        → length s.height_at ≡ n
        → add_successor c s a ≡ some t
        → Extends s t × Agrees t.height_at a
    unfolding add_successor
    add_successor-Extends s t (q, h) size e = elim (Bool-cases (q == c.code_size)) [
      | inl end ↦
          let same : s ≡ t = ground (arith, end) in
          rw (← same) (Extends-refl s, inl (==→eq q c.code_size end))
      | inr inside ↦
          let (k, at_q, recorded) = >>=-eq-some (insn_at c.pc_to_index q) _ (rw inside at e) in
          let (x, known) = record_height-Extends s t k h (omega (arith, valid q k at_q)) recorded in
          (x, inr (k, at_q, known))
    ]

    pub add_successors-Extends :
        (s t : FlowState) (out : List Arrival)
        → length s.height_at ≡ n
        → add_successors c s out ≡ some t
        → Extends s t × All (Agrees t.height_at) out
    unfolding add_successors
    add_successors-Extends s t [] size e = let same : s ≡ t = cc in (rw same (Extends-refl t), tt)
    add_successors-Extends s t (a ∷ out) size e =
        let (u, first, more) = >>=-eq-some (add_successor c s a) _ e in
        let (x, here) = add_successor-Extends s u a size first in
        let (y, others) = add_successors-Extends u t out (x.size ∙ size) more in
        (Extends-trans s u t x y, (Agrees-Extends u t a y here, others))
