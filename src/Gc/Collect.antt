-- ===== src/Gc/Collect.antt =====
-- gc.cpp and gc.h: `collect` and `force_collect`, with the setters that pace them.
use nari.Prelude.{
  ◌+◌, ◌*◌, ℕ, Bool, true, false, not, List, [], Option, some, ltb, if◌then◌else◌, ◌>>=◌,
}
use nari.Gc.Heap.{Value}
use nari.Gc.Collector.{GarbageCollector, Memory, wrap}
use nari.Gc.Mark.{Marking, mark_roots}
use nari.Gc.Sweep.{sweep}

abbrev pub max : ℕ → ℕ → ℕ
max a b = if ltb a b then b else a

-- The collector at the start of `collect`, when its worklist and environments come back from marking.
unfoldable pub start_collection : Marking → GarbageCollector → GarbageCollector
start_collection m gc = record {
  tracked_objects = gc.tracked_objects;
  tracked_count = gc.tracked_count;
  allocation_count = gc.allocation_count;
  collection_threshold = gc.collection_threshold;
  collection_target = gc.collection_target;
  trigger_collection = gc.trigger_collection;
  enabled = gc.enabled;
  total_collections = wrap (gc.total_collections + 1);
  total_collected = gc.total_collected;
  total_allocated = gc.total_allocated;
  peak_tracked = gc.peak_tracked;
  memory_limit = gc.memory_limit;
  memory_target = gc.memory_target;
  estimated_memory_usage = gc.estimated_memory_usage;
  mark_stack = m.mark_stack;
  marked_closure_environments = m.marked_closure_environments;
}

-- The counters and the targets at the end of `collect`.
unfoldable pub finish_collection : ℕ → GarbageCollector → GarbageCollector
finish_collection collected gc = record {
  tracked_objects = gc.tracked_objects;
  tracked_count = gc.tracked_count;
  allocation_count = 0;
  collection_threshold = gc.collection_threshold;
  collection_target = wrap (gc.tracked_count + max gc.collection_threshold gc.tracked_count);
  trigger_collection = false;
  enabled = gc.enabled;
  total_collections = gc.total_collections;
  total_collected = wrap (gc.total_collected + collected);
  total_allocated = gc.total_allocated;
  peak_tracked = gc.peak_tracked;
  memory_limit = gc.memory_limit;
  memory_target =
      if ltb 0 gc.memory_limit
      then max gc.memory_limit (wrap (gc.estimated_memory_usage * 2))
      else gc.memory_target;
  estimated_memory_usage = gc.estimated_memory_usage;
  mark_stack = gc.mark_stack;
  marked_closure_environments = gc.marked_closure_environments;
}

-- `sweep` and what stands behind it in `collect`.
unfoldable pub sweep_marked : GarbageCollector → Marking → Memory × ℕ
sweep_marked gc marking =
    let (swept, collected) =
      sweep (record { objects = marking.objects; gc = start_collection marking gc }) in
    (record { objects = swept.objects; gc = finish_collection collected swept.gc }, collected)

-- The environments of closures do not change; `none` where a pointer dangles.
unfoldable pub collect : List (List Value) → List (Option Value) → Memory → Option (Memory × ℕ)
collect environments roots m =
    let start : Marking = record {
      objects = m.objects;
      mark_stack = m.gc.mark_stack;
      marked_closure_environments = [];
    } in
    if not m.gc.enabled
    then some (m, 0)
    else (mark_roots environments roots start >>= λ marking. some (sweep_marked m.gc marking))

abbrev pub with_trigger : Bool → Memory → Memory
with_trigger trigger m = record {
  objects = m.objects;
  gc = record {
    tracked_objects = m.gc.tracked_objects;
    tracked_count = m.gc.tracked_count;
    allocation_count = m.gc.allocation_count;
    collection_threshold = m.gc.collection_threshold;
    collection_target = m.gc.collection_target;
    trigger_collection = trigger;
    enabled = m.gc.enabled;
    total_collections = m.gc.total_collections;
    total_collected = m.gc.total_collected;
    total_allocated = m.gc.total_allocated;
    peak_tracked = m.gc.peak_tracked;
    memory_limit = m.gc.memory_limit;
    memory_target = m.gc.memory_target;
    estimated_memory_usage = m.gc.estimated_memory_usage;
    mark_stack = m.gc.mark_stack;
    marked_closure_environments = m.gc.marked_closure_environments;
  };
}

unfoldable pub force_collect :
    List (List Value) → List (Option Value) → Memory → Option (Memory × ℕ)
force_collect environments roots m = collect environments roots (with_trigger true m) >>= λ result.
    some (with_trigger m.gc.trigger_collection result.0, result.1)
