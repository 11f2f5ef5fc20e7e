-- ===== src/Gc/Partition.antt =====
-- gc.cpp: the loop of `sweep` that splits the registry in place.
use nari.Prelude.{
  ℕ, zero, suc, ◌+◌, ◌≤◌, ◌<◌, ◌≡◌, sym, ap, ◌∙◌, subst, ◌≢◌, ◌⊎◌, inl, inr, arith, Bool, true,
  false, not, List, Option, none, some, length, ltb, ltb→lt, ltb→le, Bool-cases, ◌==◌, ==_refl,
  ne→==, if◌then◌else◌,
}
use nari.Gc.Heap.{Heap, is_marked}
use nari.Gc.Cells.{eq-cases}
use nari.Gc.Shuffle.{IsShuffle, IsShuffle-refl, IsShuffle-trans, IsShuffle-swap, get_or-swap}
use nari.Gc.Sweep.{swap, marked_at, retreat, partition_step, partition}
use nari.Gc.Retreat.{IsRetreat, retreat-IsRetreat}

module _ (h : Heap) where
  -- Marks up to `live`, and none from `begin` on.
  pub record IsSplit (l : List ℕ) (live begin : ℕ) : Type 0 where
    pub low : live ≤ begin
    pub high : begin ≤ length l
    pub front : (i : ℕ) → i < live → marked_at h l i ≡ true
    pub back : (i : ℕ) → begin ≤ i → i < length l → marked_at h l i ≡ false

  -- What the loop leaves.
  pub record IsPartition (l : List ℕ) (result : List ℕ × ℕ) : Type 0 where
    pub shuffle : IsShuffle l result.0
    pub split : IsSplit result.0 result.1 result.1

  IsSplit-keep :
      (l : List ℕ) (live begin : ℕ)
      → IsSplit l live begin
      → live < begin
      → marked_at h l live ≡ true
      → IsSplit l (live + 1) begin
  IsSplit-keep l live begin s low marked = record {
    low = omega arith;
    high = s.high;
    front = λ i a. elim (eq-cases i live) [
      | inl same ↦ ap (marked_at h l) same ∙ marked
      | inr ne ↦ s.front i (omega arith)
    ];
    back = s.back;
  }

  -- The first index has no mark, and nothing behind it.
  IsSplit-stop :
      (l : List ℕ) (live begin : ℕ)
      → IsSplit l live begin
      → live < begin
      → marked_at h l live ≡ false
      → ((i : ℕ) → live < i → i < begin → marked_at h l i ≡ false)
      → IsSplit l live live
  IsSplit-stop l live begin s low free behind = record {
    low = omega arith;
    high = (let high = s.high in omega arith);
    front = s.front;
    back = λ i a b. elim (eq-cases i live) [
      | inl same ↦ ap (marked_at h l) same ∙ free
      | inr ne ↦ elim (Bool-cases (ltb i begin)) [
        | inl within ↦ behind i (omega arith) (ltb→lt i begin within)
        | inr out ↦ s.back i (ltb→le i begin out) b
      ]
    ];
  }

  IsSplit-swap :
      (l : List ℕ) (live begin : ℕ)
      → IsSplit l live begin
      → live < begin
      → marked_at h l live ≡ false
      → (next : ℕ) → IsRetreat h l live begin next
      → marked_at h l next ≡ true
      → IsSplit (swap live next l) (live + 1) next
  IsSplit-swap l live begin s low free next r marked =
      let live_less : live < length l = (let high = s.high in omega arith) in
      let next_less : next < length l = (let high = s.high in let less = r.less in omega arith) in
      let below : live < next = elim (eq-cases live next) [
        | inl same ↦ absurd (cc (sym free ∙ ap (marked_at h l) same ∙ marked))
        | inr ne ↦ let least = r.least in omega arith
      ] in
      let moved : (k j : ℕ)
          → k < length l
          → (if k == next then live else if k == live then next else k) ≡ j
          → (b : Bool) → marked_at h l j ≡ b
          → marked_at h (swap live next l) k ≡ b =
        λ k j less t b e.
          ap (is_marked h) (get_or-swap live next k l live_less next_less less)
          ∙ ap (marked_at h l) t
          ∙ e in
      record {
        low = omega arith;
        high = (let size = (IsShuffle-swap live next l live_less next_less).size in omega arith);
        front = λ i a. elim (eq-cases i live) [
          | inl same ↦ moved i next (omega arith) (ground arith) true marked
          | inr ne ↦ moved i i (omega arith) (ground arith) true (s.front i (omega arith))
        ];
        back = λ i a b.
            let size = (IsShuffle-swap live next l live_less next_less).size in
            let b2 : i < length l = omega arith in
            elim (eq-cases i next) [
              | inl same ↦ moved i live b2 (ground arith) false free
              | inr ne ↦ moved i i b2 (ground arith) false (elim (Bool-cases (ltb i begin)) [
                | inl within ↦ r.behind i (omega arith) (ltb→lt i begin within)
                | inr out ↦ s.back i (ltb→le i begin out) b2
              ])
            ];
      }

  -- A round behind its second test, and behind its first.
  abbrev last : List ℕ → ℕ → ℕ → Option (List ℕ × ℕ)
  last l live begin =
      let next = retreat h l live begin in
      if live == next then none else some (swap live next l, next)

  abbrev later : List ℕ → ℕ → ℕ → Option (List ℕ × ℕ)
  later l live begin = if marked_at h l live then some (l, begin) else last l live begin

  later-marked :
      (l : List ℕ) (live begin : ℕ)
      → marked_at h l live ≡ true
      → later l live begin ≡ some (l, begin)
  later-marked l live begin marked =
      ap (λ (b : Bool). if b then some (l, begin) else last l live begin) marked

  later-free :
      (l : List ℕ) (live begin : ℕ)
      → marked_at h l live ≡ false
      → later l live begin ≡ last l live begin
  later-free l live begin free =
      ap (λ (b : Bool). if b then some (l, begin) else last l live begin) free

  later-stop :
      (l : List ℕ) (live begin : ℕ)
      → marked_at h l live ≡ false
      → live ≡ retreat h l live begin
      → later l live begin ≡ none
  later-stop l live begin free same =
      let hit : (live == retreat h l live begin) ≡ true =
        ap (λ n. live == n) (sym same) ∙ ==_refl live in
      later-free l live begin free
      ∙ ap
          (λ (b : Bool).
            if b then none else some (swap live (retreat h l live begin) l, retreat h l live begin))
          hit

  later-swap :
      (l : List ℕ) (live begin : ℕ)
      → marked_at h l live ≡ false
      → live ≢ retreat h l live begin
      → later l live begin ≡ some (swap live (retreat h l live begin) l, retreat h l live begin)
  later-swap l live begin free ne =
      later-free l live begin free
      ∙ ap
          (λ (b : Bool).
            if b then none else some (swap live (retreat h l live begin) l, retreat h l live begin))
          (ne→== live (retreat h l live begin) ne)

  -- Each way that a round of the loop goes.
  partition_step-over :
      (l : List ℕ) (live begin : ℕ) → ltb live begin ≡ false → partition_step h l live begin ≡ none
  unfolding partition_step
  partition_step-over l live begin reached =
      ap (λ (on : Bool). if not on then none else later l live begin) reached

  partition_step-on :
      (l : List ℕ) (live begin : ℕ)
      → ltb live begin ≡ true
      → partition_step h l live begin ≡ later l live begin
  unfolding partition_step
  partition_step-on l live begin on =
      ap (λ (on : Bool). if not on then none else later l live begin) on

  -- A round shuffles the registry and leaves it split; or the loop ends there.
  pub partition_step-cases :
      (l : List ℕ) (live begin : ℕ)
      → IsSplit l live begin
      → ((partition_step h l live begin ≡ none) × IsSplit l live live)
        ⊎ ((k : List ℕ) × (next : ℕ) × (partition_step h l live begin ≡ some (k, next))
            × IsShuffle l k
            × IsSplit k (live + 1) next
            × (next ≤ begin))
  partition_step-cases l live begin s = elim (Bool-cases (ltb live begin)) [
    | inr reached ↦
        let same : begin ≡ live =
          (let low = s.low in let le = ltb→le live begin reached in omega arith) in
        inl (partition_step-over l live begin reached, subst (λ n. IsSplit l live n) same s)
    | inl on ↦
        let low = ltb→lt live begin on in
        let r = retreat-IsRetreat h l live begin low in
        let next = retreat h l live begin in
        elim (Bool-cases (marked_at h l live)) [
          | inl marked ↦ inr (
            l,
            begin,
            partition_step-on l live begin on ∙ later-marked l live begin marked,
            IsShuffle-refl l,
            IsSplit-keep l live begin s low marked,
            omega arith,
          )
          | inr free ↦ elim (eq-cases live next) [
            | inl same ↦ inl (
              partition_step-on l live begin on ∙ later-stop l live begin free same,
              IsSplit-stop l live begin s low free
                  (λ i a b. r.behind i (subst (λ n. n < i) same a) b),
            )
            | inr ne ↦ elim r.stop [
              | inl stuck ↦ absurd (ne (sym stuck))
              | inr marked ↦ inr (
                swap live next l,
                next,
                partition_step-on l live begin on ∙ later-swap l live begin free ne,
                IsShuffle-swap live next l (let high = s.high in omega arith)
                    (let high = s.high in let less = r.less in omega arith),
                IsSplit-swap l live begin s low free next r marked,
                (let less = r.less in omega arith),
              )
            ]
          ]
        ]
  ]

  -- The loop leaves the entries of the registry, those with a mark in front.
  pub partition-IsPartition :
      (fuel : ℕ) (l : List ℕ) (live begin : ℕ)
      → IsSplit l live begin
      → begin ≤ live + fuel
      → IsPartition l (partition h fuel l live begin)
  unfolding partition
  partition-IsPartition zero l live begin s enough =
      let same : begin ≡ live = (let low = s.low in omega arith) in
      record { shuffle = IsShuffle-refl l; split = subst (λ n. IsSplit l live n) same s }
  partition-IsPartition (suc fuel) l live begin s enough =
      elim (partition_step-cases l live begin s) [
        | inl (stop, split) ↦
            rw (partition, stop) (record { shuffle = IsShuffle-refl l; split = split })
        | inr (k, next, step, shuffle, split, le) ↦
            let rest = partition-IsPartition fuel k (live + 1) next split (omega arith) in
            rw (partition, step)
              (record {
                shuffle =
                    IsShuffle-trans l k (partition h fuel k (live + 1) next).0 shuffle rest.shuffle;
                split = rest.split;
              })
      ]
