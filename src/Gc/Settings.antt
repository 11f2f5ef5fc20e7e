-- ===== src/Gc/Settings.antt =====
-- gc.h and gc.cpp: the setters of the collector, its statistics, and the two ways to touch marks alone.
use nari.Prelude.{ℕ, ◌+◌, Bool, true, false, List, [], ◌∷◌}
use nari.Gc.Heap.{Heap, with_mark}
use nari.Gc.Collector.{GarbageCollector, update, wrap}

unfoldable pub reset_allocation_count : GarbageCollector → GarbageCollector
reset_allocation_count gc = record {
  tracked_objects = gc.tracked_objects;
  tracked_count = gc.tracked_count;
  allocation_count = 0;
  collection_threshold = gc.collection_threshold;
  collection_target = gc.collection_target;
  trigger_collection = false;
  enabled = gc.enabled;
  total_collections = gc.total_collections;
  total_collected = gc.total_collected;
  total_allocated = gc.total_allocated;
  peak_tracked = gc.peak_tracked;
  memory_limit = gc.memory_limit;
  memory_target = gc.memory_target;
  estimated_memory_usage = gc.estimated_memory_usage;
  mark_stack = gc.mark_stack;
  marked_closure_environments = gc.marked_closure_environments;
}

unfoldable pub set_collection_threshold : ℕ → GarbageCollector → GarbageCollector
set_collection_threshold threshold gc = record {
  tracked_objects = gc.tracked_objects;
  tracked_count = gc.tracked_count;
  allocation_count = gc.allocation_count;
  collection_threshold = threshold;
  collection_target = wrap (gc.tracked_count + threshold);
  trigger_collection = gc.trigger_collection;
  enabled = gc.enabled;
  total_collections = gc.total_collections;
  total_collected = gc.total_collected;
  total_allocated = gc.total_allocated;
  peak_tracked = gc.peak_tracked;
  memory_limit = gc.memory_limit;
  memory_target = gc.memory_target;
  estimated_memory_usage = gc.estimated_memory_usage;
  mark_stack = gc.mark_stack;
  marked_closure_environments = gc.marked_closure_environments;
}

unfoldable pub set_enabled : Bool → GarbageCollector → GarbageCollector
set_enabled is_on gc = record {
  tracked_objects = gc.tracked_objects;
  tracked_count = gc.tracked_count;
  allocation_count = gc.allocation_count;
  collection_threshold = gc.collection_threshold;
  collection_target = gc.collection_target;
  trigger_collection = gc.trigger_collection;
  enabled = is_on;
  total_collections = gc.total_collections;
  total_collected = gc.total_collected;
  total_allocated = gc.total_allocated;
  peak_tracked = gc.peak_tracked;
  memory_limit = gc.memory_limit;
  memory_target = gc.memory_target;
  estimated_memory_usage = gc.estimated_memory_usage;
  mark_stack = gc.mark_stack;
  marked_closure_environments = gc.marked_closure_environments;
}

unfoldable pub set_memory_limit : ℕ → GarbageCollector → GarbageCollector
set_memory_limit limit gc = record {
  tracked_objects = gc.tracked_objects;
  tracked_count = gc.tracked_count;
  allocation_count = gc.allocation_count;
  collection_threshold = gc.collection_threshold;
  collection_target = gc.collection_target;
  trigger_collection = gc.trigger_collection;
  enabled = gc.enabled;
  total_collections = gc.total_collections;
  total_collected = gc.total_collected;
  total_allocated = gc.total_allocated;
  peak_tracked = gc.peak_tracked;
  memory_limit = limit;
  memory_target = limit;
  estimated_memory_usage = gc.estimated_memory_usage;
  mark_stack = gc.mark_stack;
  marked_closure_environments = gc.marked_closure_environments;
}

unfoldable pub mark_ptr : ℕ → Heap → Heap
mark_ptr p h = update (with_mark true) p h

-- The loop over the registry.
unfoldable pub clear_marks : List ℕ → Heap → Heap
clear_marks [] h = h
clear_marks (p ∷ ps) h = clear_marks ps (update (with_mark false) p h)

pub record Stats : Type 0 where
  pub tracked_count : ℕ
  pub allocation_count : ℕ
  pub total_collections : ℕ
  pub total_collected : ℕ
  pub total_allocated : ℕ
  pub peak_tracked : ℕ
  pub collection_threshold : ℕ
  pub enabled : Bool

unfoldable pub get_stats : GarbageCollector → Stats
get_stats gc = record {
  tracked_count = gc.tracked_count;
  allocation_count = gc.allocation_count;
  total_collections = gc.total_collections;
  total_collected = gc.total_collected;
  total_allocated = gc.total_allocated;
  peak_tracked = gc.peak_tracked;
  collection_threshold = gc.collection_threshold;
  enabled = gc.enabled;
}
