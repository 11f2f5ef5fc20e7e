-- ===== src/Gc/Retreat.antt =====
-- gc.cpp: the inner loop of `sweep`, which looks for a mark from the back.
use nari.Prelude.{
  ℕ, zero, suc, ◌≤◌, ◌<◌, ◌≡◌, sym, subst, ◌⊎◌, inl, inr, arith, true, false, List, ltb, ltb→lt,
  ltb→le, Bool-cases,
}
use nari.Gc.Heap.{Heap}
use nari.Gc.Cells.{eq-cases}
use nari.Gc.Sweep.{marked_at, retreat}

module _ (h : Heap) where
  -- Behind the index that `retreat` stops at, nothing has a mark; it stops at one that has, or at the
  -- first index.
  pub record IsRetreat (l : List ℕ) (live begin next : ℕ) : Type 0 where
    pub least : live ≤ next
    pub less : next < begin
    pub behind : (i : ℕ) → next < i → i < begin → marked_at h l i ≡ false
    pub stop : (next ≡ live) ⊎ (marked_at h l next ≡ true)

  pub retreat-IsRetreat :
      (l : List ℕ) (live begin : ℕ) → live < begin → IsRetreat l live begin (retreat h l live begin)
  unfolding retreat
  retreat-IsRetreat l live zero low = absurd (omega arith)
  retreat-IsRetreat l live (suc begin) low = elim (Bool-cases (ltb live begin)) [
    | inr reached ↦ rw reached (record {
      least = omega arith;
      less = omega arith;
      behind = λ i a b. absurd (omega arith);
      stop = inl (let le = ltb→le live begin reached in omega arith);
    })
    | inl on ↦ elim (Bool-cases (marked_at h l begin)) [
      | inl marked ↦
          rw (on, marked)
            (record {
              least = omega arith;
              less = omega arith;
              behind = λ i a b. absurd (omega arith);
              stop = inr marked;
            })
      | inr free ↦
          let rest = retreat-IsRetreat l live begin (ltb→lt live begin on) in
          rw (on, free)
            (record {
              least = rest.least;
              less = (let less = rest.less in omega arith);
              behind = λ i a b. elim (eq-cases i begin) [
                | inl same ↦ subst (λ j. marked_at h l j ≡ false) (sym same) free
                | inr ne ↦ rest.behind i a (omega arith)
              ];
              stop = rest.stop;
            })
    ]
  ]
