-- ===== src/Gc/Collected.antt =====
-- gc.cpp: `collect` as a whole.
use nari.Prelude.{
  ℕ, ◌≡◌, sym, ap, ◌∙◌, subst, inl, inr, Bool, true, false, not, List, [], Option, none, some,
  Bool-cases, Option-cases, if◌then◌else◌, ◌>>=◌,
}
use nari.Gc.Heap.{Value, Object, Heap, object_at, is_marked, with_mark}
use nari.Gc.Cells.{is_marked-some}
use nari.Gc.Collector.{Memory}
use nari.Gc.Mark.{Marking, mark_roots}
use nari.Gc.Refers.{AreCovered}
use nari.Gc.Exact.{Reach, AreLive, IsExact, mark_roots-IsExact, start_marking}
use nari.Gc.Shuffle.{At}
use nari.Gc.Loops.{kept_object}
use nari.Gc.Registry.{
  IsRegistry, IsRegistry-Kept, after_sweep, live, Fate, fate, swept-none, swept-IsRegistry,
}
use nari.Gc.Sweep.{sweep, clear_object, is_deleted}
use nari.Gc.Collect.{collect, sweep_marked, start_collection, finish_collection}

-- Between collections: the registry agrees with the headers, no object bears a mark, and the worklist
-- is empty.
pub record IsIdle (m : Memory) : Type 0 where
  pub registry : IsRegistry m.objects m.gc.tracked_objects
  pub clean : (q : ℕ) → is_marked m.objects q ≡ false
  pub empty : m.gc.mark_stack ≡ []

module _ (environments : List (List Value)) (roots : List (Option Value)) (m : Memory) where
  -- Each reachable object is tracked.
  abbrev pub AreTracked : Type 0
  AreTracked =
      (q : ℕ) (o : Object)
      → Reach environments m.objects roots q
      → object_at m.objects q ≡ some o
      → o.header.gc_tracked ≡ true

  -- The memory after a collection: reachable objects as they were, in the registry at the index in
  -- their headers; tracked objects that cannot be reached deleted, or emptied where there is no
  -- `delete`; other objects as they were; and the collector idle.
  pub record IsCollected (n : Memory) : Type 0 where
    pub survives :
        (q : ℕ) (o : Object)
        → Reach environments m.objects roots q
        → object_at m.objects q ≡ some o
        → (i : ℕ) × At n.gc.tracked_objects i q × (object_at n.objects q ≡ some (kept_object i o))
    pub freed :
        (q : ℕ) (o : Object)
        → (Reach environments m.objects roots q → ⊥)
        → object_at m.objects q ≡ some o
        → o.header.gc_tracked ≡ true
        → object_at n.objects q ≡ (if is_deleted o.payload then none else some (clear_object o))
    pub unseen :
        (q : ℕ) (o : Object)
        → object_at m.objects q ≡ some o
        → o.header.gc_tracked ≡ false
        → object_at n.objects q ≡ some o
    pub idle : IsIdle n

  pub sweep_marked-objects :
      (k : Marking)
      → m.gc.enabled ≡ true
      → (sweep_marked m.gc k).0.objects
        ≡ after_sweep k.objects m.gc.tracked_objects m.gc.estimated_memory_usage
  unfolding sweep_marked sweep start_collection
  sweep_marked-objects k on = rw on

  sweep_marked-tracked_objects :
      (k : Marking)
      → m.gc.enabled ≡ true
      → (sweep_marked m.gc k).0.gc.tracked_objects ≡ live k.objects m.gc.tracked_objects
  unfolding sweep_marked sweep start_collection finish_collection
  sweep_marked-tracked_objects k on = rw on

  sweep_marked-mark_stack :
      (k : Marking) → m.gc.enabled ≡ true → (sweep_marked m.gc k).0.gc.mark_stack ≡ k.mark_stack
  unfolding sweep_marked sweep start_collection finish_collection
  sweep_marked-mark_stack k on = rw on

  module _ (idle : IsIdle m) (covered : AreCovered environments m.objects)
      (alive : AreLive environments m.objects roots) (tracked : AreTracked) where
    exact :
        IsExact environments m.objects roots
          (mark_roots environments roots (start_marking m.objects))
    exact = mark_roots-IsExact environments m.objects roots idle.clean covered alive

    abbrev marking : Marking
    marking = exact.after

    abbrev registry_marked : IsRegistry marking.objects m.gc.tracked_objects
    registry_marked =
        IsRegistry-Kept m.objects marking.objects m.gc.tracked_objects exact.kept idle.registry

    abbrev swept_at : Heap
    swept_at = after_sweep marking.objects m.gc.tracked_objects m.gc.estimated_memory_usage

    -- An object through both phases.
    data Passage (q : ℕ) (o : Object) : Type 0 where
      stays :
          (i : ℕ)
          → Reach environments m.objects roots q
          → At (live marking.objects m.gc.tracked_objects) i q
          → object_at swept_at q ≡ some (kept_object i o)
          → Passage q o
      goes :
          (Reach environments m.objects roots q → ⊥)
          → o.header.gc_tracked ≡ true
          → object_at swept_at q ≡ (if is_deleted o.payload then none else some (clear_object o))
          → Passage q o
      unseen :
          (Reach environments m.objects roots q → ⊥)
          → o.header.gc_tracked ≡ false
          → object_at swept_at q ≡ some o
          → Passage q o

    -- Before the mark phase an object bears no mark.
    unmarked_before : (q : ℕ) (o : Object) → object_at m.objects q ≡ some o → with_mark false o ≡ o
    unmarked_before q o e =
        ap (λ (b : Bool). with_mark b o) (sym (idle.clean q) ∙ is_marked-some m.objects q e)

    passage : (q : ℕ) (o : Object) → object_at m.objects q ≡ some o → Passage q o
    passage q o e =
        let (b, at_k, up) = exact.kept.here q o e in
        let mark : is_marked marking.objects q ≡ b = is_marked-some marking.objects q at_k in
        let back : b ≡ false → with_mark b o ≡ o =
          λ off. ap (λ (c : Bool). with_mark c o) off ∙ unmarked_before q o e in
        let gone : b ≡ false → Reach environments m.objects roots q → ⊥ =
          λ off reach. absurd (cc (sym off ∙ sym mark ∙ (exact.marks q).1 reach)) in
        elim (fate marking.objects m.gc.tracked_objects registry_marked m.gc.estimated_memory_usage
          q (with_mark b o) at_k) [
            | Fate.stays i t marked at found ↦
                Passage.stays i ((exact.marks q).0 (mark ∙ marked)) at found
            | Fate.goes t free found ↦ Passage.goes (gone free) t (
                found
                ∙ ap (λ (x : Object). if is_deleted x.payload then none else some (clear_object x))
                    (back free))
            | Fate.unseen free found ↦
                let unreachable : Reach environments m.objects roots q → ⊥ =
                  λ reach. absurd (cc (sym free ∙ tracked q o reach e)) in
                let off : b ≡ false = elim (Bool-cases b) [
                  | inl on ↦ absurd (unreachable ((exact.marks q).0 (mark ∙ on)))
                  | inr off ↦ off
                ] in
                Passage.unseen unreachable free (found ∙ ap some (back off))
          ]

    swept_clean : (q : ℕ) → is_marked swept_at q ≡ false
    swept_clean q = elim (Option-cases (object_at m.objects q)) [
      | inl missed ↦
          ap (λ (c : Option Object). elim c [ none ↦ false | some o ↦ o.header.gc_marked ])
            (swept-none marking.objects m.gc.tracked_objects registry_marked
              m.gc.estimated_memory_usage q (exact.kept.absent q missed))
      | inr (o, e) ↦
          let mark : o.header.gc_marked ≡ false =
            sym (is_marked-some m.objects q e) ∙ idle.clean q in
          elim (passage q o e) [
            | Passage.stays i reach at found ↦ is_marked-some swept_at q found
            | Passage.unseen out free found ↦ is_marked-some swept_at q found ∙ mark
            | Passage.goes out t found ↦ elim (Bool-cases (is_deleted o.payload)) [
              | inl deleted ↦
                  ap (λ (c : Option Object). elim c [ none ↦ false | some r ↦ r.header.gc_marked ])
                    (found ∙ ap (λ (b : Bool). if b then none else some (clear_object o)) deleted)
              | inr leaked ↦
                  is_marked-some swept_at q
                    (found ∙ ap (λ (b : Bool). if b then none else some (clear_object o)) leaked)
                  ∙ mark
            ]
          ]
    ]

    abbrev result : Memory × ℕ
    result = sweep_marked m.gc marking

    collect-runs : m.gc.enabled ≡ true → collect environments roots m ≡ some result
    unfolding collect
    collect-runs on =
        let finish : Marking → Option (Memory × ℕ) = λ k. some (sweep_marked m.gc k) in
        let start : List ℕ → Marking =
          λ st. record { objects = m.objects; mark_stack = st; marked_closure_environments = [] } in
        ap
          (λ (b : Bool).
            if not b
            then some (m, 0)
            else (mark_roots environments roots (start m.gc.mark_stack) >>= finish))
          on
        ∙ ap (λ st. mark_roots environments roots (start st) >>= finish) idle.empty
        ∙ ap (λ r. r >>= finish) exact.runs

    -- Let the collector be enabled and idle, let the fields that `mark_value` leaves out hold
    -- no pointer that the others do not, let the pointers that can be reached lead to objects, and let
    -- these be tracked. A collection returns: the reachable objects are as they were, but for their index;
    -- tracked objects that cannot be reached are deleted, or emptied where `sweep` has no `delete` for
    -- them; other objects are as they were; and the collector is idle again.
    pub collect-IsCollected :
        m.gc.enabled ≡ true
        → (n : Memory) × (count : ℕ) × (collect environments roots m ≡ some (n, count))
          × IsCollected n
    collect-IsCollected on =
        let objects : result.0.objects ≡ swept_at = sweep_marked-objects marking on in
        let registry : result.0.gc.tracked_objects ≡ live marking.objects m.gc.tracked_objects =
          sweep_marked-tracked_objects marking on in
        let same : (q : ℕ) → object_at result.0.objects q ≡ object_at swept_at q =
          λ q. ap (λ h. object_at h q) objects in
        (
          result.0,
          result.1,
          collect-runs on,
          record {
            survives = λ q o reach e. elim (passage q o e) [
              | Passage.stays i there at found ↦
                  (i, subst (λ l. At l i q) (sym registry) at, same q ∙ found)
              | Passage.goes out t found ↦ absurd (out reach)
              | Passage.unseen out free found ↦ absurd (out reach)
            ];
            freed = λ q o out e t. elim (passage q o e) [
              | Passage.stays i there at found ↦ absurd (out there)
              | Passage.goes away t2 found ↦ same q ∙ found
              | Passage.unseen away free found ↦ absurd (cc (sym free ∙ t))
            ];
            unseen = λ q o e free. elim (passage q o e) [
              | Passage.stays i there at found ↦ absurd (cc (sym free ∙ tracked q o there e))
              | Passage.goes away t found ↦ absurd (cc (sym free ∙ t))
              | Passage.unseen away free2 found ↦ same q ∙ found
            ];
            idle = record {
              registry =
                  subst (λ h. IsRegistry h result.0.gc.tracked_objects) (sym objects)
                    (subst (λ l. IsRegistry swept_at l) (sym registry)
                      (swept-IsRegistry marking.objects m.gc.tracked_objects registry_marked
                        m.gc.estimated_memory_usage));
              clean = λ q. ap (λ h. is_marked h q) objects ∙ swept_clean q;
              empty = sweep_marked-mark_stack marking on ∙ exact.over;
            };
          },
        )
