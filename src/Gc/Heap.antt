-- ===== src/Gc/Heap.antt =====
-- core_types.h: the objects on the heap, as far as the collector reads them. An object stands at an
-- address; a deleted one leaves `none` there.
use nari.Prelude.{
  ℕ, Bool, false, List, [], Option, none, some, get_elem?, set, ◌>>=◌, if◌then◌else◌,
}

-- `Value`: a null pointer is `heap none`; `scalar` has the bits of any value that is not on the heap.
pub data Value : Type 0 where
  none_value : Value
  scalar : ℕ → Value
  heap : Option ℕ → Value

-- CapturesList: shared cells, of which any may be null.
abbrev pub CapturesList : Type 0
CapturesList = Option (List (Option Value))

-- The values of the maps, in the order of iteration.
pub record ObjectObj : Type 0 where
  pub fields : List Value
  pub dict : Option (List Value)
  pub lazy_payload : Value
  pub lazy_captures : CapturesList
  pub dict_mode : Bool

pub record Flags : Type 0 where
  pub return_value : Value
  pub tailcall_args : List Value
  pub throw_value : Value

pub record Task : Type 0 where
  pub result : Value
  pub error : Value
  pub locals : List Value
  pub block_scopes : List (List Value)
  pub flags : Flags

-- An environment of a closure is shared, and named by its address.
pub record FunctionData : Type 0 where
  pub closure_env : Option ℕ
  pub closure_owner_env : Option (List (Option ℕ))
  pub captures : CapturesList
  pub properties : Option ObjectObj
  pub int_length : Value

-- The object behind the header; its constructor stands for `type_tag`. Vectors whose capacity
-- `track` reads have it beside them.
pub data Payload : Type 0 where
  string_obj : (getter_key_cache : Value) → Payload
  array_obj : (v : List Value) (capacity : ℕ) (properties : Option ObjectObj) → Payload
  object_obj : ObjectObj → Payload
  function_data : FunctionData → Payload
  handle_data : (result error : Value) (task : Option Task) → Payload
  class_instance_obj : (field_values : List Value) (capacity : ℕ) → Payload
  regex_obj : Payload
  delegate_data : (target handler : Value) → Payload

pub record HeapHeader : Type 0 where
  pub gc_marked : Bool
  pub gc_tracked : Bool
  pub gc_est : ℕ
  pub gc_index : ℕ

pub record Object : Type 0 where
  pub header : HeapHeader
  pub payload : Payload

abbrev pub Heap : Type 0
Heap = List (Option Object)

-- A pointer is followed: `none` at an address without an object.
abbrev pub object_at : Heap → ℕ → Option Object
object_at h p = get_elem? h p >>= λ o. o

abbrev pub put : Heap → ℕ → Object → Heap
put h p o = set h p (some o)

abbrev pub with_mark : Bool → Object → Object
with_mark b o = record {
  header = record {
    gc_marked = b;
    gc_tracked = o.header.gc_tracked;
    gc_est = o.header.gc_est;
    gc_index = o.header.gc_index;
  };
  payload = o.payload;
}

abbrev pub is_marked : Heap → ℕ → Bool
is_marked h p = elim (object_at h p) [ none ↦ false | some o ↦ o.header.gc_marked ]

-- The map of an object, which stands for no fields outside of dict mode.
abbrev pub dict_fields : ObjectObj → List Value
dict_fields o = if o.dict_mode then elim (o.dict) [ none ↦ [] | some dict_map ↦ dict_map ] else []
