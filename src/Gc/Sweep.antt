-- ===== src/Gc/Sweep.antt =====
-- gc.cpp: `sweep`. The registry is split in place, marked objects first; the others are emptied, and
-- deleted from the back. Prefetching has no effect on the outcome.
use nari.Prelude.{
  ℕ, zero, suc, ◌+◌, Bool, true, false, not, ◌&&◌, List, [], ◌∷◌, Option, none, some, length, ltb,
  ◌==◌, get_or, set, take, drop, if◌then◌else◌,
}
use nari.Gc.Heap.{
  none_value, ObjectObj, FunctionData, Payload, string_obj, array_obj, object_obj, function_data,
  handle_data, class_instance_obj, regex_obj, delegate_data, Heap, Object, object_at, is_marked,
  with_mark,
}
use nari.Gc.Collector.{GarbageCollector, Memory, update, with_index, with_tracked, give_back}

-- `std::swap(tracked_objects[i], tracked_objects[j])`.
abbrev pub swap : ℕ → ℕ → List ℕ → List ℕ
swap i j l = set (set l i (get_or l j 0)) j (get_or l i 0)

module _ (objects : Heap) where
  -- `tracked_objects[i]->gc_marked`.
  abbrev pub marked_at : List ℕ → ℕ → Bool
  marked_at tracked_objects i = is_marked objects (get_or tracked_objects i 0)

  -- The do-while loop: the next `garbage_begin`.
  unfoldable pub retreat : List ℕ → ℕ → ℕ → ℕ
  retreat tracked_objects live_count zero = zero
  retreat tracked_objects live_count (suc garbage_begin) =
      let next = retreat tracked_objects live_count garbage_begin in
      if ltb live_count garbage_begin && not (marked_at tracked_objects garbage_begin)
      then next
      else garbage_begin

  -- A round of the loop that splits the registry: its entries and `garbage_begin`, with one object more
  -- to keep; `none` where the loop ends.
  unfoldable pub partition_step : List ℕ → ℕ → ℕ → Option (List ℕ × ℕ)
  partition_step tracked_objects live_count garbage_begin =
      let next = retreat tracked_objects live_count garbage_begin in
      if not (ltb live_count garbage_begin)
      then none
      else if marked_at tracked_objects live_count
      then some (tracked_objects, garbage_begin)
      else if live_count == next
      then none
      else some (swap live_count next tracked_objects, next)

  -- The registry after the loop, and the count of objects to keep.
  unfoldable pub partition : ℕ → List ℕ → ℕ → ℕ → List ℕ × ℕ
  partition zero tracked_objects live_count garbage_begin = (tracked_objects, live_count)
  partition (suc fuel) tracked_objects live_count garbage_begin =
      elim (partition_step tracked_objects live_count garbage_begin) [
        | none ↦ (tracked_objects, live_count)
        | some (split, next) ↦ partition fuel split (live_count + 1) next
      ]

-- The loop over the objects to keep, from index `i` on.
unfoldable pub keep_all : ℕ → List ℕ → Heap → Heap
keep_all i [] h = h
keep_all i (p ∷ ps) h = keep_all (i + 1) ps (update (λ o. with_mark false (with_index i o)) p h)

abbrev pub cleared_object : ObjectObj → ObjectObj
cleared_object o = record {
  fields = [];
  dict = elim (o.dict) [ none ↦ none | some dict_map ↦ some [] ];
  lazy_payload = none_value;
  lazy_captures = none;
  dict_mode = o.dict_mode;
}

abbrev pub cleared_function : FunctionData → FunctionData
cleared_function f = record {
  closure_env = f.closure_env;
  closure_owner_env = f.closure_owner_env;
  captures = none;
  properties = none;
  int_length = f.int_length;
}

-- The first switch over `type_tag`.
unfoldable pub cleared : Payload → Payload
cleared (array_obj v capacity properties) = array_obj [] capacity none
cleared (object_obj o) = object_obj (cleared_object o)
cleared (handle_data result error task) = handle_data none_value none_value none
cleared (class_instance_obj field_values capacity) = class_instance_obj [] capacity
cleared (function_data f) = function_data (cleared_function f)
cleared (delegate_data target handler) = delegate_data none_value none_value
cleared (string_obj getter_key_cache) = string_obj getter_key_cache
cleared regex_obj = regex_obj

abbrev pub clear_object : Object → Object
clear_object o = record { header = (with_tracked false o).header; payload = cleared o.payload }

abbrev pub est_at : Heap → ℕ → ℕ
est_at h p = elim (object_at h p) [ none ↦ 0 | some o ↦ o.header.gc_est ]

-- The loop over the garbage, with the memory in use.
unfoldable pub clear_all : List ℕ → Heap → ℕ → Heap × ℕ
clear_all [] h usage = (h, usage)
clear_all (p ∷ ps) h usage = clear_all ps (update clear_object p h) (give_back (est_at h p) usage)

-- The second switch over `type_tag`: which objects are deleted.
abbrev pub is_deleted : Payload → Bool
is_deleted regex_obj = false
is_deleted (array_obj v capacity properties) = true
is_deleted (object_obj o) = true
is_deleted (handle_data result error task) = true
is_deleted (class_instance_obj field_values capacity) = true
is_deleted (function_data f) = true
is_deleted (string_obj getter_key_cache) = true
is_deleted (delegate_data target handler) = true

abbrev pub delete : ℕ → Heap → Heap
delete p h = elim (object_at h p) [
  | none ↦ h
  | some o ↦ if is_deleted o.payload then set h p none else h
]

-- The last entry goes first.
unfoldable pub delete_all : List ℕ → Heap → Heap
delete_all [] h = h
delete_all (p ∷ ps) h = delete p (delete_all ps h)

abbrev pub with_registry : List ℕ → ℕ → GarbageCollector → GarbageCollector
with_registry tracked_objects usage gc = record {
  tracked_objects = tracked_objects;
  tracked_count = length tracked_objects;
  allocation_count = gc.allocation_count;
  collection_threshold = gc.collection_threshold;
  collection_target = gc.collection_target;
  trigger_collection = gc.trigger_collection;
  enabled = gc.enabled;
  total_collections = gc.total_collections;
  total_collected = gc.total_collected;
  total_allocated = gc.total_allocated;
  peak_tracked = gc.peak_tracked;
  memory_limit = gc.memory_limit;
  memory_target = gc.memory_target;
  estimated_memory_usage = usage;
  mark_stack = gc.mark_stack;
  marked_closure_environments = gc.marked_closure_environments;
}

-- The memory after the sweep, and the count of objects that it took off the registry.
unfoldable pub sweep : Memory → Memory × ℕ
sweep m =
    let size = length m.gc.tracked_objects in
    let (tracked_objects, live_count) = partition m.objects size m.gc.tracked_objects 0 size in
    let live = take live_count tracked_objects in
    let garbage = drop live_count tracked_objects in
    let kept = keep_all 0 live m.objects in
    let (empty, usage) = clear_all garbage kept m.gc.estimated_memory_usage in
    if not m.gc.enabled then (m, 0) else (
      record { objects = delete_all garbage empty; gc = with_registry live usage m.gc },
      length garbage,
    )
