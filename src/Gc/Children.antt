-- ===== src/Gc/Children.antt =====
-- gc.cpp: the values that an object refers to, and what a run of pushes does to them.
use nari.Prelude.{ℕ, ◌≡◌, inl, inr, List, [], ◌∷◌, ◌++◌, Option, none, some, All, Member}
use nari.Gc.Heap.{
  Value, Payload, string_obj, array_obj, object_obj, function_data, handle_data, class_instance_obj,
  regex_obj, delegate_data,
}
use nari.Gc.Mark.{
  Marking, environment_values, object_values, property_values, task_values, capture_values,
  owner_environments,
}
use nari.Gc.Marking.{IsMarkedValue, Pushed, All-marked-Kept}

module _ (environments : List (List Value)) where
  abbrev pub shared_values : Option ℕ → List Value
  shared_values none = []
  shared_values (some e) = environment_values environments e

  abbrev pub owner_values : List (Option ℕ) → List Value
  owner_values [] = []
  owner_values (e ∷ es) = shared_values e ++ owner_values es

  -- The values that an object refers to, with those of the environments of a closure.
  abbrev pub children : Payload → List Value
  children (string_obj getter_key_cache) = getter_key_cache ∷ []
  children (array_obj v capacity properties) = v ++ property_values properties
  children (object_obj o) = object_values o
  children (handle_data result error task) = result ∷ error ∷ task_values task
  children (class_instance_obj field_values capacity) = field_values
  children (function_data f) =
      capture_values f.captures
      ++ (shared_values f.closure_env
          ++ (owner_values (owner_environments f) ++ property_values f.properties))
  children (delegate_data target handler) = target ∷ handler ∷ []
  children regex_obj = []

  -- What the environments that the phase has been at hold is marked.
  abbrev pub AreEntered : Marking → Type 0
  AreEntered m =
      (e : ℕ)
      → Member e m.marked_closure_environments
      → All (IsMarkedValue m) (environment_values environments e)

  -- A run of the pushes `f` from `m`, which marks `vs`.
  pub record Marks (P : ℕ → Type 0) (m : Marking) (run : Option Marking) (vs : List Value)
      : Type 0 where
    pub after : Marking
    pub runs : run ≡ some after
    pub pushed : Pushed environments P m after
    pub marked : All (IsMarkedValue after) vs

  pub AreEntered-Pushed :
      (P : ℕ → Type 0) (m n : Marking) → Pushed environments P m n → AreEntered m → AreEntered n
  AreEntered-Pushed P m n pushed entered e h = elim (pushed.entered e h) [
    | inl old ↦ All-marked-Kept m n (environment_values environments e) pushed.kept (entered e old)
    | inr all ↦ all
  ]
