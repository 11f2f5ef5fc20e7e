-- ===== src/Gc/Mark.antt =====
-- gc.cpp: `mark_value`, with its worklist.
use nari.Prelude.{
  ℕ, zero, suc, true, List, [], ◌∷◌, ◌++◌, Option, none, some, length, is_one_of, get_or, ◌>>=◌,
  if◌then◌else◌,
}
use nari.Gc.Heap.{
  Value, none_value, scalar, heap, ObjectObj, Task, FunctionData, Payload, string_obj, array_obj,
  object_obj, function_data, handle_data, class_instance_obj, regex_obj, delegate_data, Heap,
  Object, object_at, put, with_mark, dict_fields, CapturesList,
}

-- What the mark phase changes; the top of the stack stands first.
pub record Marking : Type 0 where
  pub objects : Heap
  pub mark_stack : List ℕ
  pub marked_closure_environments : List ℕ

abbrev pub mark_object : ℕ → Object → Marking → Marking
mark_object p o m = record {
  objects = put m.objects p (with_mark true o);
  mark_stack = p ∷ m.mark_stack;
  marked_closure_environments = m.marked_closure_environments;
}

-- The lambda `push`. `none` where the pointer dangles.
unfoldable pub push : Value → Marking → Option Marking
push none_value m = some m
push (scalar bits) m = some m
push (heap none) m = some m
push (heap (some p)) m = elim (object_at m.objects p) [
  | none ↦ none
  | some o ↦ some (if o.header.gc_marked then m else mark_object p o m)
]

unfoldable pub push_all : List Value → Marking → Option Marking
push_all [] m = some m
push_all (v ∷ vs) m = push v m >>= push_all vs

-- The values of a table of properties, in the order in which they are pushed.
abbrev pub object_values : ObjectObj → List Value
object_values o = o.fields ++ o.lazy_payload ∷ (if o.dict_mode then dict_fields o else [])

abbrev pub property_values : Option ObjectObj → List Value
property_values none = []
property_values (some o) = object_values o

abbrev pub scope_values : List (List Value) → List Value
scope_values [] = []
scope_values (scope ∷ scopes) = scope ++ scope_values scopes

abbrev pub task_values : Option Task → List Value
task_values none = []
task_values (some t) =
    t.locals
    ++ (scope_values t.block_scopes
        ++ t.result ∷ t.error ∷ t.flags.return_value ∷ t.flags.throw_value ∷ [])

abbrev pub cell_values : List (Option Value) → List Value
cell_values [] = []
cell_values (none ∷ cells) = cell_values cells
cell_values (some v ∷ cells) = v ∷ cell_values cells

abbrev pub capture_values : CapturesList → List Value
capture_values none = []
capture_values (some cells) = cell_values cells

abbrev pub owner_environments : FunctionData → List (Option ℕ)
owner_environments f = elim (f.closure_owner_env) [ none ↦ [] | some owners ↦ owners ]

module _ (environments : List (List Value)) where
  abbrev pub environment_values : ℕ → List Value
  environment_values e = get_or environments e []

  -- An environment that the phase has not been at yet.
  abbrev pub enter_environment : ℕ → Marking → Marking
  enter_environment e m = record {
    objects = m.objects;
    mark_stack = m.mark_stack;
    marked_closure_environments = e ∷ m.marked_closure_environments;
  }

  unfoldable pub visit_environment : Option ℕ → Marking → Option Marking
  visit_environment none m = some m
  visit_environment (some e) m =
      if is_one_of e m.marked_closure_environments
      then some m
      else push_all (environment_values e) (enter_environment e m)

  unfoldable pub visit_environments : List (Option ℕ) → Marking → Option Marking
  visit_environments [] m = some m
  visit_environments (e ∷ es) m = visit_environment e m >>= visit_environments es

  -- The switch over `type_tag`.
  unfoldable pub visit : Payload → Marking → Option Marking
  visit (string_obj getter_key_cache) m = push getter_key_cache m
  visit (array_obj v capacity properties) m = push_all v m >>= push_all (property_values properties)
  visit (object_obj o) m = push_all (object_values o) m
  visit (handle_data result error task) m =
      push result m >>= λ m1. push error m1 >>= push_all (task_values task)
  visit (class_instance_obj field_values capacity) m = push_all field_values m
  visit (function_data f) m = push_all (capture_values f.captures) m >>= λ m1.
      visit_environment f.closure_env m1 >>= λ m2.
      visit_environments (owner_environments f) m2 >>= push_all (property_values f.properties)
  visit (delegate_data target handler) m = push target m >>= push handler
  visit regex_obj m = some m

  -- `none` without fuel too.
  unfoldable pub mark_loop : ℕ → Marking → Option Marking
  mark_loop zero m = none
  mark_loop (suc fuel) m = elim (m.mark_stack) [
    | [] ↦ some m
    | p ∷ rest ↦ object_at m.objects p >>= λ o.
        visit o.payload (record {
          objects = m.objects;
          mark_stack = rest;
          marked_closure_environments = m.marked_closure_environments;
        })
        >>= mark_loop fuel
  ]

  unfoldable pub mark_value : Value → Marking → Option Marking
  mark_value root m = push root m >>= mark_loop (suc (length m.objects))

  -- The loop over the roots in `collect`; a null root is `none`.
  unfoldable pub mark_roots : List (Option Value) → Marking → Option Marking
  mark_roots [] m = some m
  mark_roots (none ∷ roots) m = mark_roots roots m
  mark_roots (some root ∷ roots) m = mark_value root m >>= mark_roots roots
