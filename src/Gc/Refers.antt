-- ===== src/Gc/Refers.antt =====
-- core_types.h: the values that the fields of an object hold, field by field, apart from how the
-- collector goes through them.
use nari.Prelude.{ℕ, ◌≡◌, ◌⊎◌, true, List, [], Option, some, get_or, Member}
use nari.Gc.Heap.{
  Value, heap, Object, Heap, object_at, ObjectObj, Task, FunctionData, Payload, string_obj,
  array_obj, object_obj, function_data, handle_data, class_instance_obj, delegate_data,
}

-- The fields of an object, and those of the table of properties of an array or a function.
pub data HasField (o : ObjectObj) (v : Value) : Type 0 where
  field : Member v o.fields → HasField o v
  lazy : v ≡ o.lazy_payload → HasField o v
  entry : (m : List Value) → o.dict_mode ≡ true → o.dict ≡ some m → Member v m → HasField o v

pub data HasLocal (t : Task) (v : Value) : Type 0 where
  local : Member v t.locals → HasLocal t v
  scoped : (scope : List Value) → Member scope t.block_scopes → Member v scope → HasLocal t v
  task_result : v ≡ t.result → HasLocal t v
  task_error : v ≡ t.error → HasLocal t v
  returned : v ≡ t.flags.return_value → HasLocal t v
  thrown : v ≡ t.flags.throw_value → HasLocal t v

-- The value `v` is in a field of the object, or in an environment that the closure has by its address.
pub data Refers (environments : List (List Value)) : Payload → Value → Type 0 where
  getter_key : (v : Value) → Refers environments (string_obj v) v
  element :
      (vs : List Value) (capacity : ℕ) (ps : Option ObjectObj) (v : Value)
      → Member v vs
      → Refers environments (array_obj vs capacity ps) v
  array_property :
      (vs : List Value) (capacity : ℕ) (o : ObjectObj) (v : Value)
      → HasField o v
      → Refers environments (array_obj vs capacity (some o)) v
  object_field : (o : ObjectObj) (v : Value) → HasField o v → Refers environments (object_obj o) v
  handle_result :
      (v error : Value) (task : Option Task) → Refers environments (handle_data v error task) v
  handle_error :
      (result v : Value) (task : Option Task) → Refers environments (handle_data result v task) v
  in_task :
      (result error : Value) (t : Task) (v : Value)
      → HasLocal t v
      → Refers environments (handle_data result error (some t)) v
  instance_field :
      (vs : List Value) (capacity : ℕ) (v : Value)
      → Member v vs
      → Refers environments (class_instance_obj vs capacity) v
  captured :
      (f : FunctionData) (cells : List (Option Value)) (v : Value)
      → f.captures ≡ some cells
      → Member (some v) cells
      → Refers environments (function_data f) v
  closed_over :
      (f : FunctionData) (e : ℕ) (v : Value)
      → f.closure_env ≡ some e
      → Member v (get_or environments e [])
      → Refers environments (function_data f) v
  owned :
      (f : FunctionData) (owners : List (Option ℕ)) (e : ℕ) (v : Value)
      → f.closure_owner_env ≡ some owners
      → Member (some e) owners
      → Member v (get_or environments e [])
      → Refers environments (function_data f) v
  function_property :
      (f : FunctionData) (o : ObjectObj) (v : Value)
      → f.properties ≡ some o
      → HasField o v
      → Refers environments (function_data f) v
  target_value : (v w : Value) → Refers environments (delegate_data v w) v
  handler_value : (w v : Value) → Refers environments (delegate_data w v) v

-- The fields that the collector does not go through: the captures of lazy fields, the arguments of
-- a tail call of a task, and the `length` of a function.
pub data IsUnscanned : Payload → Value → Type 0 where
  object_captures :
      (o : ObjectObj) (cells : List (Option Value)) (v : Value)
      → o.lazy_captures ≡ some cells
      → Member (some v) cells
      → IsUnscanned (object_obj o) v
  array_captures :
      (vs : List Value) (capacity : ℕ) (o : ObjectObj) (cells : List (Option Value)) (v : Value)
      → o.lazy_captures ≡ some cells
      → Member (some v) cells
      → IsUnscanned (array_obj vs capacity (some o)) v
  function_captures :
      (f : FunctionData) (o : ObjectObj) (cells : List (Option Value)) (v : Value)
      → f.properties ≡ some o
      → o.lazy_captures ≡ some cells
      → Member (some v) cells
      → IsUnscanned (function_data f) v
  own_length : (f : FunctionData) → IsUnscanned (function_data f) f.int_length
  tailcall_argument :
      (result error : Value) (t : Task) (v : Value)
      → Member v t.flags.tailcall_args
      → IsUnscanned (handle_data result error (some t)) v

-- The value is in the object, scanned or not.
abbrev pub Holds : List (List Value) → Payload → Value → Type 0
Holds environments p v = Refers environments p v ⊎ IsUnscanned p v

-- A pointer that an object has in fields that the collector leaves out, it has in one that the
-- collector goes through: `lazy_captures` starts with a cell for `lazy_payload` (src/runtime.cpp),
-- `set_property` of a function writes integers only to `int_length`, and nothing writes
-- `tailcall_args`.
abbrev pub AreCovered : List (List Value) → Heap → Type 0
AreCovered environments base =
    (q : ℕ) (o : Object) (p : ℕ)
    → object_at base q ≡ some o
    → IsUnscanned o.payload (heap (some p))
    → Refers environments o.payload (heap (some p))
