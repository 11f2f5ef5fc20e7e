-- ===== src/Gc/Fields.antt =====
-- gc.cpp: the children that the collector goes through are the values that the fields of an object hold.
use nari.Prelude.{
  ℕ, ◌≡◌, refl, sym, ap, subst, ◌⊎◌, inl, inr, List, [], ◌∷◌, ◌++◌, Option, none, some, get_or,
  Member, Bool-cases, Option-cases, some_injective, if◌then◌else◌,
}
use nari.Gc.Heap.{
  Value, ObjectObj, Task, FunctionData, Payload, string_obj, array_obj, object_obj, function_data,
  handle_data, class_instance_obj, regex_obj, delegate_data, dict_fields,
}
use nari.Gc.Mark.{
  object_values, property_values, scope_values, task_values, cell_values, capture_values,
  owner_environments, environment_values,
}
use nari.Gc.Children.{shared_values, owner_values, children}
use nari.Gc.Refers.{HasField, HasLocal, Refers}

Member-append_left : (v : Value) (xs ys : List Value) → Member v xs → Member v (xs ++ ys)
Member-append_left v [] ys h = absurd h
Member-append_left v (x ∷ xs) ys (inl e) = inl e
Member-append_left v (x ∷ xs) ys (inr h) = inr (Member-append_left v xs ys h)

Member-append_right : (v : Value) (xs ys : List Value) → Member v ys → Member v (xs ++ ys)
Member-append_right v [] ys h = h
Member-append_right v (x ∷ xs) ys h = inr (Member-append_right v xs ys h)

Member-append_cases :
    (v : Value) (xs ys : List Value) → Member v (xs ++ ys) → Member v xs ⊎ Member v ys
Member-append_cases v [] ys h = inr h
Member-append_cases v (x ∷ xs) ys (inl e) = inl (inl e)
Member-append_cases v (x ∷ xs) ys (inr h) = elim (Member-append_cases v xs ys h) [
  | inl a ↦ inl (inr a)
  | inr b ↦ inr b
]

-- The collector goes through each field of a table of properties.
HasField-Member : (o : ObjectObj) (v : Value) → HasField o v → Member v (object_values o)
HasField-Member o v (HasField.field h) = Member-append_left v o.fields _ h
HasField-Member o v (HasField.lazy e) = Member-append_right v o.fields _ (inl e)
HasField-Member o v (HasField.entry m on at h) =
    let all : (if o.dict_mode then dict_fields o else []) ≡ m = rw (on, at) in
    Member-append_right v o.fields _ (inr (subst (Member v) (sym all) h))

Member-HasField : (o : ObjectObj) (v : Value) → Member v (object_values o) → HasField o v
Member-HasField o v h = elim (Member-append_cases v o.fields _ h) [
  | inl a ↦ HasField.field a
  | inr (inl e) ↦ HasField.lazy e
  | inr (inr b) ↦ elim (Bool-cases o.dict_mode) [
    | inr off ↦ absurd (rw off at b)
    | inl on ↦ elim (Option-cases o.dict) [
      | inl missed ↦ absurd (rw (on, missed) at b)
      | inr (m, at) ↦ HasField.entry m on at (rw (on, at) at b)
    ]
  ]
]

scoped-Member :
    (scopes : List (List Value)) (scope : List Value) (v : Value)
    → Member scope scopes
    → Member v scope
    → Member v (scope_values scopes)
scoped-Member [] scope v h m = absurd h
scoped-Member (x ∷ scopes) scope v (inl e) m = Member-append_left v x _ (subst (Member v) e m)
scoped-Member (x ∷ scopes) scope v (inr h) m =
    Member-append_right v x _ (scoped-Member scopes scope v h m)

Member-scoped :
    (scopes : List (List Value)) (v : Value)
    → Member v (scope_values scopes)
    → (scope : List Value) × Member scope scopes × Member v scope
Member-scoped [] v h = absurd h
Member-scoped (x ∷ scopes) v h = elim (Member-append_cases v x _ h) [
  | inl m ↦ (x, inl refl, m)
  | inr b ↦ let (scope, at, m) = Member-scoped scopes v b in (scope, inr at, m)
]

HasLocal-Member : (t : Task) (v : Value) → HasLocal t v → Member v (task_values (some t))
HasLocal-Member t v h =
    let ends = t.result ∷ t.error ∷ t.flags.return_value ∷ t.flags.throw_value ∷ [] in
    let scopes = scope_values t.block_scopes in
    let behind : Member v ends → Member v (task_values (some t)) =
      λ m. Member-append_right v t.locals _ (Member-append_right v scopes _ m) in
    elim h [
      | HasLocal.local m ↦ Member-append_left v t.locals _ m
      | HasLocal.scoped scope at m ↦
          Member-append_right v t.locals _
            (Member-append_left v scopes _ (scoped-Member t.block_scopes scope v at m))
      | HasLocal.task_result e ↦ behind (inl e)
      | HasLocal.task_error e ↦ behind (inr (inl e))
      | HasLocal.returned e ↦ behind (inr (inr (inl e)))
      | HasLocal.thrown e ↦ behind (inr (inr (inr (inl e))))
    ]

Member-HasLocal : (t : Task) (v : Value) → Member v (task_values (some t)) → HasLocal t v
Member-HasLocal t v h = elim (Member-append_cases v t.locals _ h) [
  | inl a ↦ HasLocal.local a
  | inr b ↦ elim (Member-append_cases v (scope_values t.block_scopes) _ b) [
    | inl c ↦ let (scope, at, m) = Member-scoped t.block_scopes v c in HasLocal.scoped scope at m
    | inr (inl e) ↦ HasLocal.task_result e
    | inr (inr (inl e)) ↦ HasLocal.task_error e
    | inr (inr (inr (inl e))) ↦ HasLocal.returned e
    | inr (inr (inr (inr (inl e)))) ↦ HasLocal.thrown e
    | inr (inr (inr (inr (inr nothing)))) ↦ absurd nothing
  ]
]

captured-Member :
    (cells : List (Option Value)) (v : Value) → Member (some v) cells → Member v (cell_values cells)
captured-Member [] v h = absurd h
captured-Member (none ∷ cells) v (inl e) = absurd (cc)
captured-Member (none ∷ cells) v (inr h) = captured-Member cells v h
captured-Member (some w ∷ cells) v (inl e) = inl (some_injective e)
captured-Member (some w ∷ cells) v (inr h) = inr (captured-Member cells v h)

Member-captured :
    (cells : List (Option Value)) (v : Value) → Member v (cell_values cells) → Member (some v) cells
Member-captured [] v h = absurd h
Member-captured (none ∷ cells) v h = inr (Member-captured cells v h)
Member-captured (some w ∷ cells) v (inl e) = inl (ap some e)
Member-captured (some w ∷ cells) v (inr h) = inr (Member-captured cells v h)

module _ (environments : List (List Value)) where
  owned-Member :
      (owners : List (Option ℕ)) (e : ℕ) (v : Value)
      → Member (some e) owners
      → Member v (get_or environments e [])
      → Member v (owner_values environments owners)
  owned-Member [] e v h m = absurd h
  owned-Member (w ∷ owners) e v (inl same) m =
      Member-append_left v (shared_values environments w) _
        (subst (λ x. Member v (shared_values environments x)) same m)
  owned-Member (w ∷ owners) e v (inr h) m =
      Member-append_right v (shared_values environments w) _ (owned-Member owners e v h m)

  Member-owned :
      (owners : List (Option ℕ)) (v : Value)
      → Member v (owner_values environments owners)
      → (e : ℕ) × Member (some e) owners × Member v (get_or environments e [])
  Member-owned [] v h = absurd h
  Member-owned (none ∷ owners) v h = let (e, at, m) = Member-owned owners v h in (e, inr at, m)
  Member-owned (some w ∷ owners) v h =
      elim (Member-append_cases v (environment_values environments w) _ h) [
        | inl m ↦ (w, inl refl, m)
        | inr b ↦ let (e, at, m) = Member-owned owners v b in (e, inr at, m)
      ]

  -- The parts of what the collector goes through for a function.
  in_captures :
      (f : FunctionData) (v : Value)
      → Member v (capture_values f.captures)
      → Member v (children environments (function_data f))
  in_captures f v m = Member-append_left v (capture_values f.captures) _ m

  in_shared :
      (f : FunctionData) (v : Value)
      → Member v (shared_values environments f.closure_env)
      → Member v (children environments (function_data f))
  in_shared f v m =
      Member-append_right v (capture_values f.captures) _
        (Member-append_left v (shared_values environments f.closure_env) _ m)

  in_owned :
      (f : FunctionData) (v : Value)
      → Member v (owner_values environments (owner_environments f))
      → Member v (children environments (function_data f))
  in_owned f v m = Member-append_right v (capture_values f.captures) _ (
      Member-append_right v (shared_values environments f.closure_env) _
        (Member-append_left v (owner_values environments (owner_environments f)) _ m))

  in_properties :
      (f : FunctionData) (v : Value)
      → Member v (property_values f.properties)
      → Member v (children environments (function_data f))
  in_properties f v m = Member-append_right v (capture_values f.captures) _ (
      Member-append_right v (shared_values environments f.closure_env) _
        (Member-append_right v (owner_values environments (owner_environments f)) _ m))

  -- The collector goes through each value that an object refers to.
  pub Refers-Member :
      (p : Payload) (v : Value) → Refers environments p v → Member v (children environments p)
  Refers-Member _ _ (Refers.getter_key v) = inl refl
  Refers-Member _ _ (Refers.element vs capacity ps v m) = Member-append_left v vs _ m
  Refers-Member _ _ (Refers.array_property vs capacity o v h) =
      Member-append_right v vs _ (HasField-Member o v h)
  Refers-Member _ _ (Refers.object_field o v h) = HasField-Member o v h
  Refers-Member _ _ (Refers.handle_result v error task) = inl refl
  Refers-Member _ _ (Refers.handle_error result v task) = inr (inl refl)
  Refers-Member _ _ (Refers.in_task result error t v h) = inr (inr (HasLocal-Member t v h))
  Refers-Member _ _ (Refers.instance_field vs capacity v m) = m
  Refers-Member _ _ (Refers.captured f cells v e m) =
      in_captures f v (subst (λ c. Member v (capture_values c)) (sym e) (captured-Member cells v m))
  Refers-Member _ _ (Refers.closed_over f e v at m) =
      in_shared f v (subst (λ x. Member v (shared_values environments x)) (sym at) m)
  Refers-Member _ _ (Refers.owned f owners e v at on m) =
      in_owned f v (rw at (owned-Member owners e v on m))
  Refers-Member _ _ (Refers.function_property f o v at h) =
      in_properties f v (subst (λ x. Member v (property_values x)) (sym at) (HasField-Member o v h))
  Refers-Member _ _ (Refers.target_value v w) = inl refl
  Refers-Member _ _ (Refers.handler_value w v) = inr (inl refl)

  function-Refers :
      (f : FunctionData) (v : Value)
      → Member v (children environments (function_data f))
      → Refers environments (function_data f) v
  function-Refers f v h = elim (Member-append_cases v (capture_values f.captures) _ h) [
    | inl a ↦ elim (Option-cases f.captures) [
      | inl missed ↦ absurd (rw missed at a)
      | inr (cells, at) ↦ Refers.captured f cells v at (Member-captured cells v (rw at at a))
    ]
    | inr b ↦ elim (Member-append_cases v (shared_values environments f.closure_env) _ b) [
      | inl a ↦ elim (Option-cases f.closure_env) [
        | inl missed ↦ absurd (rw missed at a)
        | inr (e, at) ↦ Refers.closed_over f e v at (rw at at a)
      ]
      | inr c ↦
          elim (Member-append_cases v (owner_values environments (owner_environments f)) _ c) [
            | inl a ↦ elim (Option-cases f.closure_owner_env) [
              | inl missed ↦ absurd (rw missed at a)
              | inr (owners, at) ↦
                  let (e, on, m) = Member-owned owners v (rw at at a) in
                  Refers.owned f owners e v at on m
            ]
            | inr a ↦ elim (Option-cases f.properties) [
              | inl missed ↦ absurd (rw missed at a)
              | inr (o, at) ↦ Refers.function_property f o v at (Member-HasField o v (rw at at a))
            ]
          ]
    ]
  ]

  -- And it goes through no other.
  pub Member-Refers :
      (p : Payload) (v : Value) → Member v (children environments p) → Refers environments p v
  Member-Refers (string_obj w) v (inl e) =
      subst (λ x. Refers environments (string_obj x) v) e (Refers.getter_key v)
  Member-Refers (string_obj w) v (inr h) = absurd h
  Member-Refers (array_obj vs capacity none) v h = elim (Member-append_cases v vs [] h) [
    | inl a ↦ Refers.element vs capacity none v a
    | inr b ↦ absurd b
  ]
  Member-Refers (array_obj vs capacity (some o)) v h = elim (Member-append_cases v vs _ h) [
    | inl a ↦ Refers.element vs capacity (some o) v a
    | inr b ↦ Refers.array_property vs capacity o v (Member-HasField o v b)
  ]
  Member-Refers (object_obj o) v h = Refers.object_field o v (Member-HasField o v h)
  Member-Refers (handle_data r w task) v (inl e) =
      subst (λ x. Refers environments (handle_data x w task) v) e (Refers.handle_result v w task)
  Member-Refers (handle_data r w task) v (inr (inl e)) =
      subst (λ x. Refers environments (handle_data r x task) v) e (Refers.handle_error r v task)
  Member-Refers (handle_data r w none) v (inr (inr h)) = absurd h
  Member-Refers (handle_data r w (some t)) v (inr (inr h)) =
      Refers.in_task r w t v (Member-HasLocal t v h)
  Member-Refers (class_instance_obj vs capacity) v h = Refers.instance_field vs capacity v h
  Member-Refers (function_data f) v h = function-Refers f v h
  Member-Refers (delegate_data t w) v (inl e) =
      subst (λ x. Refers environments (delegate_data x w) v) e (Refers.target_value v w)
  Member-Refers (delegate_data t w) v (inr (inl e)) =
      subst (λ x. Refers environments (delegate_data t x) v) e (Refers.handler_value t v)
  Member-Refers (delegate_data t w) v (inr (inr h)) = absurd h
  Member-Refers regex_obj v h = absurd h
