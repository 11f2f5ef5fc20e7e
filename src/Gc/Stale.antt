-- ===== src/Gc/Stale.antt =====
-- gc.cpp: `collect` where a root bears a mark already, as an object does that is not tracked and has
-- been through a collection.
use nari.Prelude.{
  ℕ, ◌≡◌, sym, ap, ◌∙◌, Bool, true, false, not, List, [], ◌∷◌, Option, none, some, if◌then◌else◌,
  ◌>>=◌,
}
use nari.Gc.Heap.{Value, heap, Object, Heap, object_at}
use nari.Gc.Collector.{Memory}
use nari.Gc.Mark.{Marking, push, mark_loop, mark_value, mark_roots}
use nari.Gc.Registry.{IsRegistry, after_sweep, Fate, fate}
use nari.Gc.Exact.{start_marking}
use nari.Gc.Sweep.{is_deleted, clear_object}
use nari.Gc.Collect.{collect, sweep_marked}
use nari.Gc.Collected.{sweep_marked-objects}

module _ (environments : List (List Value)) (p : ℕ) (o : Object) where
  mark_value-stale :
      (h : Heap)
      → object_at h p ≡ some o
      → o.header.gc_marked ≡ true
      → mark_roots environments (some (heap (some p)) ∷ []) (start_marking h)
        ≡ some (start_marking h)
  unfolding mark_roots mark_value mark_loop push
  mark_value-stale h e marked = rw (e, marked)

  -- Let the one root point to an object with a mark, in a collector that is enabled and has an empty
  -- worklist. A collection deletes each tracked object without a mark that `sweep` has a `delete` for,
  -- also those that the root leads to.
  pub collect-stale :
      (m : Memory) (q : ℕ) (c : Object)
      → m.gc.enabled ≡ true
      → m.gc.mark_stack ≡ []
      → IsRegistry m.objects m.gc.tracked_objects
      → object_at m.objects p ≡ some o
      → o.header.gc_marked ≡ true
      → object_at m.objects q ≡ some c
      → c.header.gc_tracked ≡ true
      → c.header.gc_marked ≡ false
      → is_deleted c.payload ≡ true
      → (n : Memory) × (count : ℕ) × (collect environments (some (heap (some p)) ∷ []) m
          ≡ some (n, count))
        × (object_at n.objects q ≡ none)
  unfolding collect
  collect-stale m q c on empty r at_p marked at_q tracked free deleted =
      let roots : List (Option Value) = some (heap (some p)) ∷ [] in
      let finish : Marking → Option (Memory × ℕ) = λ k. some (sweep_marked m.gc k) in
      let start : List ℕ → Marking =
        λ st. record { objects = m.objects; mark_stack = st; marked_closure_environments = [] } in
      let (n, count) = sweep_marked m.gc (start []) in
      let runs : collect environments roots m ≡ some (n, count) =
        ap
          (λ (b : Bool).
            if not b
            then some (m, 0)
            else (mark_roots environments roots (start m.gc.mark_stack) >>= finish))
          on
        ∙ ap (λ st. mark_roots environments roots (start st) >>= finish) empty
        ∙ ap (λ k. k >>= finish) (mark_value-stale m.objects at_p marked) in
      let swept : object_at n.objects q
          ≡ object_at (after_sweep m.objects m.gc.tracked_objects m.gc.estimated_memory_usage) q =
        ap (λ h. object_at h q) (sweep_marked-objects environments roots m (start []) on) in
      (
        n,
        count,
        runs,
        elim (fate m.objects m.gc.tracked_objects r m.gc.estimated_memory_usage q c at_q) [
          | Fate.stays i t kept at found ↦ absurd (cc (sym free ∙ kept))
          | Fate.unseen out found ↦ absurd (cc (sym out ∙ tracked))
          | Fate.goes t off found ↦
              swept ∙ found ∙ ap (λ (b : Bool). if b then none else some (clear_object c)) deleted
        ],
      )
