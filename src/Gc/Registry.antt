-- ===== src/Gc/Registry.antt =====
-- gc.cpp: the registry of tracked objects, through the mark phase and through `sweep`.
use nari.Prelude.{
  some_injective, ℕ, ◌≡◌, sym, ap, ◌∙◌, subst, inl, inr, arith, Bool, true, false, List, none, some,
  length, take, Bool-cases, Option-cases, if◌then◌else◌,
}
use nari.Gc.Heap.{Object, Heap, object_at, with_mark}
use nari.Gc.Cells.{Kept, is_marked-some}
use nari.Gc.Shuffle.{At, IsDistinct}
use nari.Gc.Partition.{IsPartition, partition-IsPartition}
use nari.Gc.Loops.{kept_object}
use nari.Gc.Swept.{swept, swept-live, swept-garbage, swept-other, At-live, IsDistinct-live}
use nari.Gc.Sweep.{partition, clear_object, is_deleted}

-- The registry of `m` lists each tracked object once, at the index in its header.
pub record IsRegistry (objects : Heap) (tracked : List ℕ) : Type 0 where
  pub here :
      (i p : ℕ)
      → At tracked i p
      → (o : Object) × (object_at objects p ≡ some o)
        × (o.header.gc_tracked ≡ true)
        × (o.header.gc_index ≡ i)
  pub listed :
      (p : ℕ) (o : Object)
      → object_at objects p ≡ some o
      → o.header.gc_tracked ≡ true
      → At tracked o.header.gc_index p

pub IsRegistry-IsDistinct :
    (objects : Heap) (tracked : List ℕ) → IsRegistry objects tracked → IsDistinct tracked
IsRegistry-IsDistinct objects tracked r i j p at_i at_j =
    let (o, e, t, same) = r.here i p at_i in
    let (o2, e2, t2, same2) = r.here j p at_j in
    let objects_same : o ≡ o2 = cc in
    sym same ∙ ap (λ (x : Object). x.header.gc_index) objects_same ∙ same2

-- Marks do not touch the registry.
pub IsRegistry-Kept :
    (h k : Heap) (tracked : List ℕ) → Kept h k → IsRegistry h tracked → IsRegistry k tracked
IsRegistry-Kept h k tracked kept r = record {
  here = λ i p at.
      let (o, e, t, same) = r.here i p at in
      let (b, at_k, up) = kept.here p o e in (with_mark b o, at_k, t, same);
  listed = λ p o e t. elim (Option-cases (object_at h p)) [
    | inl missed ↦ absurd (cc (sym e ∙ kept.absent p missed))
    | inr (old, found) ↦
        let (b, at_k, up) = kept.here p old found in
        let same : with_mark b old ≡ o = cc in
        let t2 : old.header.gc_tracked ≡ true = ap (λ (x : Object). x.header.gc_tracked) same ∙ t in
        subst (λ i. At tracked i p) (ap (λ (x : Object). x.header.gc_index) same)
          (r.listed p old found t2)
  ];
}

-- Out of the registry: an object that is not tracked.
pub untracked_out :
    (h : Heap) (tracked : List ℕ) (q : ℕ) (o : Object)
    → IsRegistry h tracked
    → object_at h q ≡ some o
    → o.header.gc_tracked ≡ false
    → (i : ℕ) → At tracked i q
    → ⊥
untracked_out h tracked q o r e free i at =
    let (o2, e2, t, same) = r.here i q at in
    let objects_same : o ≡ o2 = cc in
    absurd (cc (sym free ∙ ap (λ (x : Object). x.header.gc_tracked) objects_same ∙ t))

module _ (h : Heap) (tracked : List ℕ) where
  abbrev size : ℕ
  size = length tracked

  abbrev pub split : List ℕ × ℕ
  split = partition h size tracked 0 size

  abbrev pub live : List ℕ
  live = take split.1 split.0

  pub split-IsPartition : IsPartition h tracked split
  split-IsPartition =
      partition-IsPartition h size tracked 0 size
        (record {
          low = omega arith;
          high = omega arith;
          front = λ i a. absurd (omega arith);
          back = λ i a b. absurd (omega arith);
        })
        (omega arith)

  abbrev pub after_sweep : ℕ → Heap
  after_sweep usage = swept h split.0 split.1 usage

  module _ (r : IsRegistry h tracked) where
    d : IsDistinct tracked
    d = IsRegistry-IsDistinct h tracked r

    -- What `sweep` makes of an object at `q`.
    pub data Fate (usage q : ℕ) (o : Object) : Type 0 where
      stays :
          (i : ℕ)
          → o.header.gc_tracked ≡ true
          → o.header.gc_marked ≡ true
          → At live i q
          → object_at (after_sweep usage) q ≡ some (kept_object i o)
          → Fate usage q o
      goes :
          o.header.gc_tracked ≡ true
          → o.header.gc_marked ≡ false
          → object_at (after_sweep usage) q
            ≡ (if is_deleted o.payload then none else some (clear_object o))
          → Fate usage q o
      unseen :
          o.header.gc_tracked ≡ false → object_at (after_sweep usage) q ≡ some o → Fate usage q o

    pub fate : (usage q : ℕ) (o : Object) → object_at h q ≡ some o → Fate usage q o
    fate usage q o e = elim (Bool-cases o.header.gc_tracked) [
      | inr free ↦ Fate.unseen free (
          swept-other h tracked split.0 split.1 split-IsPartition d usage q
            (untracked_out h tracked q o r e free)
          ∙ e)
      | inl tracked_q ↦
          let at = r.listed q o e tracked_q in
          let i = o.header.gc_index in
          elim (Bool-cases o.header.gc_marked) [
            | inl marked ↦
                let (j, at_live, found) =
                  swept-live h tracked split.0 split.1 split-IsPartition d usage i q o at
                    (is_marked-some h q e ∙ marked) e in
                Fate.stays j tracked_q marked at_live found
            | inr free ↦ Fate.goes tracked_q free (
                swept-garbage h tracked split.0 split.1 split-IsPartition d usage i q o at
                  (is_marked-some h q e ∙ free) e)
          ]
    ]

    listed_after :
        (usage p : ℕ) (o old : Object)
        → object_at h p ≡ some old
        → object_at (after_sweep usage) p ≡ some o
        → o.header.gc_tracked ≡ true
        → Fate usage p old
        → At live o.header.gc_index p
    listed_after usage p o old found e t (Fate.stays i tracked_p marked at_live there) =
        let same : kept_object i old ≡ o = cc in
        subst (λ j. At live j p) (ap (λ (x : Object). x.header.gc_index) same) at_live
    listed_after usage p o old found e t (Fate.unseen free there) =
        let same : old ≡ o = cc in
        absurd (cc (sym free ∙ ap (λ (x : Object). x.header.gc_tracked) same ∙ t))
    listed_after usage p o old found e t (Fate.goes tracked_p free there) =
        elim (Bool-cases (is_deleted old.payload)) [
          | inl deleted ↦ absurd (
              cc (
                sym e
                ∙ there
                ∙ ap (λ (b : Bool). if b then none else some (clear_object old)) deleted))
          | inr leaked ↦
              let same : o ≡ clear_object old = some_injective (
                sym e
                ∙ there
                ∙ ap (λ (b : Bool). if b then none else some (clear_object old)) leaked) in
              absurd (cc (sym t ∙ ap (λ (x : Object). x.header.gc_tracked) same))
        ]

    pub swept-none : (usage q : ℕ) → object_at h q ≡ none → object_at (after_sweep usage) q ≡ none
    swept-none usage q e =
        swept-other h tracked split.0 split.1 split-IsPartition d usage q
          (λ i at. let (o, found, t, same) = r.here i q at in absurd (cc (sym e ∙ found)))
        ∙ e

    pub swept-IsRegistry : (usage : ℕ) → IsRegistry (after_sweep usage) live
    swept-IsRegistry usage = record {
      here = λ i p at.
          let ((j, at_old), marked) =
            At-live h tracked split.0 split.1 split-IsPartition d i p at in
          let (o, e, t, same) = r.here j p at_old in
          let (k, at_live, found) =
            swept-live h tracked split.0 split.1 split-IsPartition d usage j p o at_old marked e in
          (
            kept_object k o,
            found,
            t,
            IsDistinct-live h tracked split.0 split.1 split-IsPartition d k i p at_live at,
          );
      listed = λ p o e t. elim (Option-cases (object_at h p)) [
        | inl missed ↦ absurd (cc (sym e ∙ swept-none usage p missed))
        | inr (old, found) ↦ listed_after usage p o old found e t (fate usage p old found)
      ];
    }
