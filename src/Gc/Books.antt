-- ===== src/Gc/Books.antt =====
-- gc.cpp: the registry and the memory count, through `track` and then `untrack`.
use nari.Prelude.{
  ℕ, ◌+◌, ◌-◌, ◌<◌, ◌≡◌, ap, ◌∙◌, arith, true, false, not, ◌||◌, List, [], ◌∷◌, ◌++◌, some, length,
  length-append, take, take-append, ◌==◌, ==_refl,
}
use nari.Gc.Heap.{Object, object_at, put}
use nari.Gc.Cells.{object_at-set_self}
use nari.Gc.Collector.{
  Memory, TrackedType, Layout, estimate, capped, register, count_allocation, track, untrack,
  untrack_object, give_back, wrap, size_max,
}
use nari.Gc.Tracked.{track-at, track_object-some}
use nari.Gc.Untracked.{untrack-at}

give_back-capped :
    (usage est : ℕ)
    → usage + est < size_max
    → give_back (capped est) (wrap (usage + est)) ≡ usage + (est - capped est)
give_back-capped usage est room = ground arith

length-concat : (l : List ℕ) (p : ℕ) → length (l ++ p ∷ []) ≡ length l + 1
length-concat l p = length-append l (p ∷ [])

take-concat : (l : List ℕ) (p : ℕ) → take (length (l ++ p ∷ []) - 1) (l ++ p ∷ []) ≡ l
take-concat l p =
    let e : length (l ++ p ∷ []) - 1 ≡ length l = omega (arith, length-concat l p) in
    ap (λ n. take n (l ++ p ∷ [])) e ∙ take-append l (p ∷ [])

-- `track` of an object that is not tracked, by a collector that is enabled, and then `untrack`: the
-- registry is as before, and the count of memory has grown by what the estimate has above the range of
-- `gc_est`, if the count does not wrap.
pub untrack-track :
    (l : Layout) (p : ℕ) (type : TrackedType) (o : Object) (m : Memory)
    → object_at m.objects p ≡ some o
    → (not m.gc.enabled || o.header.gc_tracked) ≡ false
    → m.gc.estimated_memory_usage + estimate l type o.payload < size_max
    → ((untrack p (track l true p type m)).gc.tracked_objects ≡ m.gc.tracked_objects)
      × ((untrack p (track l true p type m)).gc.estimated_memory_usage
          ≡ m.gc.estimated_memory_usage
            + (estimate l type o.payload - capped (estimate l type o.payload)))
unfolding untrack_object count_allocation
untrack-track l p type o m e accepted room =
    let est = estimate l type o.payload in
    let x : Object = register est (length m.gc.tracked_objects) o in
    let n : Memory = record { objects = put m.objects p x; gc = count_allocation p est m.gc } in
    let tracked : track l true p type m ≡ n =
      track-at l true p type m (some o) e ∙ track_object-some l p type o m accepted in
    let back : untrack p n ≡ untrack_object p x n =
      untrack-at p n (some x) (object_at-set_self m.objects p (some x) e) in
    let end : (length m.gc.tracked_objects + 1 == length (m.gc.tracked_objects ++ p ∷ [])) ≡ true =
      ap (λ k. length m.gc.tracked_objects + 1 == k) (length-concat m.gc.tracked_objects p)
      ∙ ==_refl (length m.gc.tracked_objects + 1) in
    let whole = ap (untrack p) tracked ∙ back in
    (
      ap (λ (k : Memory). k.gc.tracked_objects) whole ∙ rw end (take-concat m.gc.tracked_objects p),
      ap (λ (k : Memory). k.gc.estimated_memory_usage) whole
          ∙ give_back-capped m.gc.estimated_memory_usage est room,
    )
