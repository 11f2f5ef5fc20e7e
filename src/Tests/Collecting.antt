-- ===== src/Tests/Collecting.antt =====
-- The collector at a heap of four objects: an array with a string, a delegate that points to itself,
-- and a regular expression; the root is the array.
use nari.Prelude.{
  some_injective, ℕ, zero, suc, ◌+◌, ◌-◌, ◌≡◌, refl, sym, ◌∙◌, subst, ◌⊎◌, inl, inr, arith, true,
  false, List, [], ◌∷◌, Option, none, some, All,
}
use nari.Gc.Heap.{
  Value, none_value, scalar, heap, Payload, array_obj, string_obj, delegate_data, regex_obj, Object,
  Heap, object_at, is_marked,
}
use nari.Gc.Collector.{
  Memory, array, string, unknown, Layout, new_collector, track, track_object, untrack,
  count_allocation, estimate, capped,
}
use nari.Gc.Mark.{mark_roots}
use nari.Gc.Marking.{Points}
use nari.Gc.Children.{children}
use nari.Gc.Scan.{All-at}
use nari.Gc.Refers.{IsUnscanned, AreCovered}
use nari.Gc.Fields.{Refers-Member}
use nari.Gc.Exact.{Reach, AreLive, IsExact, mark_roots-IsExact, start_marking}
use nari.Gc.Collect.{collect}
use nari.Gc.Collected.{IsIdle, AreTracked, IsCollected, collect-IsCollected}
use nari.Gc.Tracked.{track-IsIdle}
use nari.Gc.Untracked.{untrack-IsIdle}
use nari.Prelude.{get_elem?, ap, sym, ◌∙◌}
use nari.Gc.Shuffle.{At}
use nari.Gc.Registry.{IsRegistry}
use nari.Gc.Sweep.{with_registry}
use nari.Gc.Stale.{collect-stale}
use nari.Gc.Books.{untrack-track}

abbrev layout : Layout
layout = record {
  sizeof_array_obj = 56;
  sizeof_object_obj = 200;
  sizeof_class_instance = 88;
  sizeof_string_obj = 104;
  sizeof_function_data = 240;
}

abbrev fresh : Payload → Object
fresh payload = record {
  header = record { gc_marked = false; gc_tracked = false; gc_est = 0; gc_index = 0 };
  payload = payload;
}

abbrev new_objects : Heap
new_objects =
    some (fresh (array_obj (heap (some 1) ∷ scalar 7 ∷ []) 4 none))
    ∷ some (fresh (string_obj none_value))
    ∷ some (fresh (delegate_data (heap (some 2)) none_value))
    ∷ some (fresh regex_obj)
    ∷ []

abbrev new_memory : Memory
new_memory = record { objects = new_objects; gc = new_collector }

abbrev full_memory : Memory
full_memory = track layout true 3 unknown (
    track layout true 2 unknown (track layout true 1 string (track layout true 0 array new_memory)))

abbrev test_roots : List (Option Value)
test_roots = some (heap (some 0)) ∷ none ∷ []

-- What holds of all objects of a heap holds of the one at an address.
abbrev OnObject : (Object → Type 0) → Option Object → Type 0
OnObject P none = Unit
OnObject P (some o) = P o

object_at-All :
    (P : Object → Type 0) (h : Heap) (q : ℕ) (o : Object)
    → All (OnObject P) h
    → object_at h q ≡ some o
    → P o
object_at-All P [] q o all e = absurd (cc)
object_at-All P (none ∷ h) zero o all e = absurd (cc)
object_at-All P (some r ∷ h) zero o all e = subst P (some_injective e) all.0
object_at-All P (none ∷ h) (suc q) o all e = object_at-All P h q o all.1 e
object_at-All P (some r ∷ h) (suc q) o all e = object_at-All P h q o all.1 e

new_objects_clean : (q : ℕ) → is_marked new_objects q ≡ false
new_objects_clean zero = refl
new_objects_clean (suc zero) = refl
new_objects_clean (suc (suc zero)) = refl
new_objects_clean (suc (suc (suc zero))) = refl
new_objects_clean (suc (suc (suc (suc q)))) = refl

new_memory-IsIdle : IsIdle new_memory
new_memory-IsIdle = record {
  registry = record {
    here = λ i p at. absurd (cc);
    listed = λ p o e t.
        let free : o.header.gc_tracked ≡ false =
          object_at-All (λ o. o.header.gc_tracked ≡ false) new_objects p o
            (refl, (refl, (refl, (refl, tt)))) e in
        absurd (cc (sym free ∙ t));
  };
  clean = new_objects_clean;
  empty = refl;
}

full_memory-IsIdle : IsIdle full_memory
full_memory-IsIdle = track-IsIdle layout true 3 unknown _ (
    track-IsIdle layout true 2 unknown _ (
      track-IsIdle layout true 1 string _
        (track-IsIdle layout true 0 array new_memory new_memory-IsIdle)))

abbrev FirstTwo : ℕ → Type 0
FirstTwo q = (q ≡ 0) ⊎ (q ≡ 1)

-- The array leads to the string, and the string to nothing.
FirstTwo-closed :
    (q : ℕ) (o : Object)
    → FirstTwo q
    → object_at full_memory.objects q ≡ some o
    → All (Points FirstTwo) (children [] o.payload)
unfolding track track_object estimate count_allocation
FirstTwo-closed zero o h e =
    subst (λ (x : Object). All (Points FirstTwo) (children [] x.payload)) (some_injective e)
      (inr refl, (tt, tt))
FirstTwo-closed (suc zero) o h e =
    subst (λ (x : Object). All (Points FirstTwo) (children [] x.payload)) (some_injective e)
      (tt, tt)
FirstTwo-closed (suc (suc q)) o (inl h) e = absurd (omega arith)
FirstTwo-closed (suc (suc q)) o (inr h) e = absurd (omega arith)

abbrev RootFirstTwo : Option Value → Type 0
RootFirstTwo none = Unit
RootFirstTwo (some v) = Points FirstTwo v

-- No object of the heap has a field that the collector leaves out.
abbrev AllScanned : Object → Type 0
AllScanned o = (v : Value) → IsUnscanned o.payload v → ⊥

array-AllScanned :
    (v : Value) → IsUnscanned (array_obj (heap (some 1) ∷ scalar 7 ∷ []) 4 none) v → ⊥
array-AllScanned v h = elim h [ ]

string-AllScanned : (v : Value) → IsUnscanned (string_obj none_value) v → ⊥
string-AllScanned v h = elim h [ ]

delegate-AllScanned : (v : Value) → IsUnscanned (delegate_data (heap (some 2)) none_value) v → ⊥
delegate-AllScanned v h = elim h [ ]

regex-AllScanned : (v : Value) → IsUnscanned regex_obj v → ⊥
regex-AllScanned v h = elim h [ ]

full_memory-AreCovered : AreCovered [] full_memory.objects
unfolding track track_object estimate count_allocation
full_memory-AreCovered q o p e left_out = absurd (
    object_at-All AllScanned full_memory.objects q o
      (array-AllScanned, (string-AllScanned, (delegate-AllScanned, (regex-AllScanned, tt)))) e
      (heap (some p)) left_out)

Reach-FirstTwo : (q : ℕ) → Reach [] full_memory.objects test_roots q → FirstTwo q
Reach-FirstTwo _ (Reach.root q m) =
    All-at RootFirstTwo test_roots (some (heap (some q))) (inl refl, (tt, tt)) m
Reach-FirstTwo _ (Reach.child p q o reach e m) =
    All-at (Points FirstTwo) (children [] o.payload) (heap (some q))
      (FirstTwo-closed p o (Reach-FirstTwo p reach) e)
      (elim m [
        | inl refers ↦ Refers-Member [] o.payload (heap (some q)) refers
        | inr left_out ↦
            Refers-Member [] o.payload (heap (some q)) (full_memory-AreCovered p o q e left_out)
      ])

FirstTwo-live : (q : ℕ) → FirstTwo q → (o : Object) × (object_at full_memory.objects q ≡ some o)
unfolding track track_object estimate count_allocation
FirstTwo-live zero h = (_, refl)
FirstTwo-live (suc zero) h = (_, refl)
FirstTwo-live (suc (suc q)) (inl h) = absurd (omega arith)
FirstTwo-live (suc (suc q)) (inr h) = absurd (omega arith)

full_memory-AreLive : AreLive [] full_memory.objects test_roots
full_memory-AreLive q reach = FirstTwo-live q (Reach-FirstTwo q reach)

full_memory-AreTracked : AreTracked [] test_roots full_memory
unfolding track track_object estimate count_allocation
full_memory-AreTracked q o reach e =
    object_at-All (λ o. o.header.gc_tracked ≡ true) full_memory.objects q o
      (refl, (refl, (refl, (refl, tt)))) e

mark_roots-IsExact_example :
    IsExact [] full_memory.objects test_roots
      (mark_roots [] test_roots (start_marking full_memory.objects))
mark_roots-IsExact_example =
    mark_roots-IsExact [] full_memory.objects test_roots full_memory-IsIdle.clean
      full_memory-AreCovered full_memory-AreLive

full_memory_enabled : full_memory.gc.enabled ≡ true
unfolding track track_object estimate count_allocation
full_memory_enabled = refl

collect-IsCollected_example :
    (n : Memory) × (count : ℕ) × (collect [] test_roots full_memory ≡ some (n, count))
    × IsCollected [] test_roots full_memory n
collect-IsCollected_example =
    collect-IsCollected [] test_roots full_memory full_memory-IsIdle full_memory-AreCovered
      full_memory-AreLive full_memory-AreTracked full_memory_enabled

track-IsIdle_example : IsIdle (track layout true 0 array new_memory)
track-IsIdle_example = track-IsIdle layout true 0 array new_memory new_memory-IsIdle

untrack-IsIdle_example : IsIdle (untrack 1 full_memory)
untrack-IsIdle_example = untrack-IsIdle 1 full_memory full_memory-IsIdle

untrack-track_example :
    ((untrack 0 (track layout true 0 array new_memory)).gc.tracked_objects ≡ [])
    × ((untrack 0 (track layout true 0 array new_memory)).gc.estimated_memory_usage
        ≡ 0
          + (estimate layout array (array_obj (heap (some 1) ∷ scalar 7 ∷ []) 4 none)
              - capped (estimate layout array (array_obj (heap (some 1) ∷ scalar 7 ∷ []) 4 none))))
unfolding estimate
untrack-track_example =
    untrack-track layout 0 array (fresh (array_obj (heap (some 1) ∷ scalar 7 ∷ []) 4 none))
      new_memory refl refl (omega arith)

-- An array that was made while the collector was disabled, and has a mark from an earlier collection,
-- with a string that was made later.
abbrev stale_array : Object
stale_array = record {
  header = record { gc_marked = true; gc_tracked = false; gc_est = 0; gc_index = 0 };
  payload = array_obj (heap (some 1) ∷ []) 4 none;
}

abbrev later_string : Object
later_string = record {
  header = record { gc_marked = false; gc_tracked = true; gc_est = 104; gc_index = 0 };
  payload = string_obj none_value;
}

abbrev stale_objects : Heap
stale_objects = some stale_array ∷ some later_string ∷ []

stale_here :
    (i p : ℕ)
    → At (1 ∷ []) i p
    → (o : Object) × (object_at stale_objects p ≡ some o)
      × (o.header.gc_tracked ≡ true)
      × (o.header.gc_index ≡ i)
stale_here zero p at =
    (later_string, ap (object_at stale_objects) (sym (some_injective at)), refl, refl)
stale_here (suc i) p at = absurd (cc)

stale_listed :
    (p : ℕ) (o : Object)
    → object_at stale_objects p ≡ some o
    → o.header.gc_tracked ≡ true
    → At (1 ∷ []) o.header.gc_index p
stale_listed zero o e t =
    absurd (cc (ap (λ (x : Object). x.header.gc_tracked) (some_injective e) ∙ t))
stale_listed (suc zero) o e t =
    ap (λ (x : Object). get_elem? (1 ∷ []) x.header.gc_index) (sym (some_injective e))
stale_listed (suc (suc p)) o e t = absurd (cc)

stale_objects-IsRegistry : IsRegistry stale_objects (1 ∷ [])
stale_objects-IsRegistry = record { here = stale_here; listed = stale_listed }

abbrev stale_memory : Memory
stale_memory = record { objects = stale_objects; gc = with_registry (1 ∷ []) 104 new_collector }

collect-stale_example :
    (n : Memory) × (count : ℕ) × (collect [] (some (heap (some 0)) ∷ []) stale_memory
      ≡ some (n, count))
    × (object_at n.objects 1 ≡ none)
collect-stale_example =
    collect-stale [] 0 stale_array stale_memory 1 later_string refl refl stale_objects-IsRegistry
      refl refl refl refl refl refl
