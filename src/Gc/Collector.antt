-- ===== src/Gc/Collector.antt =====
-- gc.h and gc.cpp: the state of the collector, and the operations that register an object with it and
-- set its limits. A size_t is a number below 2^64.
use nari.Prelude.{
  ℕ, ◌+◌, ◌-◌, ◌*◌, ◌%◌, ◌^◌, Bool, true, false, not, ◌&&◌, ◌||◌, List, [], ◌∷◌, ◌++◌, none, some,
  length, ltb, leb, ◌==◌, get_or, set, take, if◌then◌else◌,
}
use nari.Gc.Heap.{
  Payload, array_obj, object_obj, class_instance_obj, ObjectObj, Heap, Object, object_at, put,
  dict_fields,
}

abbrev pub size_max : ℕ
size_max = 2 ^ 64

abbrev pub wrap : ℕ → ℕ
wrap n = n % size_max

pub record GarbageCollector : Type 0 where
  pub tracked_objects : List ℕ
  pub tracked_count : ℕ
  pub allocation_count : ℕ
  pub collection_threshold : ℕ
  pub collection_target : ℕ
  pub trigger_collection : Bool
  pub enabled : Bool
  pub total_collections : ℕ
  pub total_collected : ℕ
  pub total_allocated : ℕ
  pub peak_tracked : ℕ
  pub memory_limit : ℕ
  pub memory_target : ℕ
  pub estimated_memory_usage : ℕ
  pub mark_stack : List ℕ
  pub marked_closure_environments : List ℕ

-- `GarbageCollector() = default`.
abbrev pub new_collector : GarbageCollector
new_collector = record {
  tracked_objects = [];
  tracked_count = 0;
  allocation_count = 0;
  collection_threshold = 1000000;
  collection_target = 1000000;
  trigger_collection = false;
  enabled = true;
  total_collections = 0;
  total_collected = 0;
  total_allocated = 0;
  peak_tracked = 0;
  memory_limit = 0;
  memory_target = 0;
  estimated_memory_usage = 0;
  mark_stack = [];
  marked_closure_environments = [];
}

-- The objects, and the collector beside them.
pub record Memory : Type 0 where
  pub objects : Heap
  pub gc : GarbageCollector

pub data TrackedType : Type 0 where
  array : TrackedType
  object : TrackedType
  handle : TrackedType
  class_instance : TrackedType
  function : TrackedType
  string : TrackedType
  unknown : TrackedType

-- `sizeof` of the structs, which the compiler lays out.
pub record Layout : Type 0 where
  pub sizeof_array_obj : ℕ
  pub sizeof_object_obj : ℕ
  pub sizeof_class_instance : ℕ
  pub sizeof_string_obj : ℕ
  pub sizeof_function_data : ℕ

abbrev pub value_size_estimate : ℕ
value_size_estimate = 8

abbrev pub field_count : ObjectObj → ℕ
field_count o = if o.dict_mode then length (dict_fields o) else length o.fields

-- The capacities and counts that the casts of `track` read; 0 under a cast to another type.
abbrev pub array_capacity : Payload → ℕ
array_capacity (array_obj v capacity properties) = capacity
array_capacity p = 0

abbrev pub object_field_count : Payload → ℕ
object_field_count (object_obj o) = field_count o
object_field_count p = 0

abbrev pub field_values_capacity : Payload → ℕ
field_values_capacity (class_instance_obj field_values capacity) = capacity
field_values_capacity p = 0

-- The switch over `type` in `track`.
unfoldable pub estimate : Layout → TrackedType → Payload → ℕ
estimate l array p = wrap (l.sizeof_array_obj + array_capacity p * value_size_estimate)
estimate l object p = wrap (l.sizeof_object_obj + object_field_count p * value_size_estimate)
estimate l class_instance p =
    wrap (l.sizeof_class_instance + field_values_capacity p * value_size_estimate)
estimate l string p = l.sizeof_string_obj
estimate l function p = l.sizeof_function_data
estimate l handle p = 64
estimate l unknown p = 64

-- The cap of a size at the range of `gc_est`.
abbrev pub capped : ℕ → ℕ
capped est = if ltb 4294967295 est then 4294967295 else est

abbrev pub register : ℕ → ℕ → Object → Object
register est index o = record {
  header = record {
    gc_marked = o.header.gc_marked;
    gc_tracked = true;
    gc_est = capped est;
    gc_index = index;
  };
  payload = o.payload;
}

-- The counters at the end of `track`.
unfoldable pub count_allocation : ℕ → ℕ → GarbageCollector → GarbageCollector
count_allocation p est gc =
    let tracked_objects = gc.tracked_objects ++ p ∷ [] in
    let tracked_count = length tracked_objects in
    let usage = wrap (gc.estimated_memory_usage + est) in
    record {
      tracked_objects = tracked_objects;
      tracked_count = tracked_count;
      allocation_count = wrap (gc.allocation_count + 1);
      collection_threshold = gc.collection_threshold;
      collection_target = gc.collection_target;
      trigger_collection =
          gc.trigger_collection
          || ltb 0 gc.memory_target && ltb gc.memory_target usage
          || leb gc.collection_target tracked_count;
      enabled = gc.enabled;
      total_collections = gc.total_collections;
      total_collected = gc.total_collected;
      total_allocated = wrap (gc.total_allocated + 1);
      peak_tracked = if ltb gc.peak_tracked tracked_count then tracked_count else gc.peak_tracked;
      memory_limit = gc.memory_limit;
      memory_target = gc.memory_target;
      estimated_memory_usage = usage;
      mark_stack = gc.mark_stack;
      marked_closure_environments = gc.marked_closure_environments;
    }

-- The header where the registry has no memory to grow: its estimate and index are set, and it is not
-- tracked.
abbrev pub drop_entry : ℕ → ℕ → Object → Object
drop_entry est index o = record {
  header = record {
    gc_marked = o.header.gc_marked;
    gc_tracked = o.header.gc_tracked;
    gc_est = capped est;
    gc_index = index;
  };
  payload = o.payload;
}

-- `track` for the object `o` at `p`; with `grows` false, `push_back` throws.
unfoldable pub track_object : Layout → Bool → ℕ → TrackedType → Object → Memory → Memory
track_object l grows p type o m =
    let est = estimate l type o.payload in
    let index = length m.gc.tracked_objects in
    if not m.gc.enabled || o.header.gc_tracked
    then m
    else if grows
    then record {
      objects = put m.objects p (register est index o);
      gc = count_allocation p est m.gc;
    }
    else record { objects = put m.objects p (drop_entry est index o); gc = m.gc }

-- The callers have just made the object, so the pointer is not null and leads to it.
unfoldable pub track : Layout → Bool → ℕ → TrackedType → Memory → Memory
track l grows p type m = elim (object_at m.objects p) [
  | none ↦ m
  | some o ↦ track_object l grows p type o m
]

abbrev pub with_index : ℕ → Object → Object
with_index i o = record {
  header = record {
    gc_marked = o.header.gc_marked;
    gc_tracked = o.header.gc_tracked;
    gc_est = o.header.gc_est;
    gc_index = i;
  };
  payload = o.payload;
}

abbrev pub with_tracked : Bool → Object → Object
with_tracked b o = record {
  header = record {
    gc_marked = o.header.gc_marked;
    gc_tracked = b;
    gc_est = o.header.gc_est;
    gc_index = o.header.gc_index;
  };
  payload = o.payload;
}

-- A write through a pointer; nothing where there is no object.
abbrev pub update : (Object → Object) → ℕ → Heap → Heap
update f p h = elim (object_at h p) [ none ↦ h | some o ↦ put h p (f o) ]

-- The estimate of an object that goes is taken off, down to 0.
abbrev pub give_back : ℕ → ℕ → ℕ
give_back est usage = if leb est usage then usage - est else 0

-- The registry with the last entry at the place of the one that goes.
abbrev pub fill_hole : ℕ → ℕ → List ℕ → List ℕ
fill_hole index last objects =
    if index + 1 == length objects then objects else set objects index last

abbrev pub forget : List ℕ → ℕ → GarbageCollector → GarbageCollector
forget tracked_objects est gc = record {
  tracked_objects = tracked_objects;
  tracked_count = length tracked_objects;
  allocation_count = gc.allocation_count;
  collection_threshold = gc.collection_threshold;
  collection_target = gc.collection_target;
  trigger_collection = gc.trigger_collection;
  enabled = gc.enabled;
  total_collections = gc.total_collections;
  total_collected = gc.total_collected;
  total_allocated = gc.total_allocated;
  peak_tracked = gc.peak_tracked;
  memory_limit = gc.memory_limit;
  memory_target = gc.memory_target;
  estimated_memory_usage = give_back est gc.estimated_memory_usage;
  mark_stack = gc.mark_stack;
  marked_closure_environments = gc.marked_closure_environments;
}

unfoldable pub untrack_object : ℕ → Object → Memory → Memory
untrack_object p o m =
    let index = o.header.gc_index in
    let size = length m.gc.tracked_objects in
    let last = get_or m.gc.tracked_objects (size - 1) 0 in
    let moved = if index + 1 == size then m.objects else update (with_index index) last m.objects in
    if o.header.gc_tracked
    then record {
      objects = update (with_tracked false) p moved;
      gc =
          forget (take (size - 1) (fill_hole index last m.gc.tracked_objects)) o.header.gc_est m.gc;
    }
    else m

unfoldable pub untrack : ℕ → Memory → Memory
untrack p m = elim (object_at m.objects p) [ none ↦ m | some o ↦ untrack_object p o m ]
