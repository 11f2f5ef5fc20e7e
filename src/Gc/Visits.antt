-- ===== src/Gc/Visits.antt =====
-- gc.cpp: one round of the loop of `mark_value`, which pushes the children of an object.
use nari.Prelude.{
  ℕ, ◌≡◌, refl, sym, ap, ◌∙◌, subst, inl, inr, Bool, true, List, [], ◌∷◌, ◌++◌, Option, none, some,
  All, All-append, All-append_parts, is_one_of, is_one_of-Member, Bool-cases, ◌>>=◌, if◌then◌else◌,
}
use nari.Gc.Heap.{
  Value, none_value, scalar, heap, Payload, string_obj, array_obj, object_obj, function_data,
  handle_data, class_instance_obj, regex_obj, delegate_data, Object, Heap, object_at, with_mark,
}
use nari.Gc.Cells.{Kept, Kept-trans, is_marked-some, object_at-set_self}
use nari.Gc.Mark.{
  Marking, push, push_all, mark_object, environment_values, enter_environment, visit_environment,
  visit_environments, visit, object_values, property_values, task_values, capture_values,
  owner_environments,
}
use nari.Gc.Marking.{
  IsMarkedValue, Points, Pushed, Pushed-refl, Pushed-trans, Pushed-mark, All-marked-Kept,
}
use nari.Gc.Children.{shared_values, owner_values, children, AreEntered, AreEntered-Pushed, Marks}

push-some :
    (m : Marking) (p : ℕ) {o : Object}
    → object_at m.objects p ≡ some o
    → push (heap (some p)) m ≡ some (if o.header.gc_marked then m else mark_object p o m)
unfolding push
push-some m p e =
    ap
      (λ c. elim c [
        | none ↦ none
        | some o ↦ some (if o.header.gc_marked then m else mark_object p o m)
      ])
      e

module _ (environments : List (List Value)) where
  module _ (base : Heap) (P : ℕ → Type 0)
      (live : (q : ℕ) → P q → (o : Object) × (object_at base q ≡ some o)) where
    pub push-Marks :
        (v : Value) (m : Marking)
        → Kept base m.objects
        → Points P v
        → Marks environments P m (push v m) (v ∷ [])
    unfolding push
    push-Marks none_value m kept h = record {
      after = m;
      runs = refl;
      pushed = Pushed-refl environments P m;
      marked = (tt, tt);
    }
    push-Marks (scalar bits) m kept h = record {
      after = m;
      runs = refl;
      pushed = Pushed-refl environments P m;
      marked = (tt, tt);
    }
    push-Marks (heap none) m kept h = record {
      after = m;
      runs = refl;
      pushed = Pushed-refl environments P m;
      marked = (tt, tt);
    }
    push-Marks (heap (some p)) m kept h =
        let (o, at_base) = live p h in
        let (b, at_m, up) = kept.here p o at_base in
        elim (Bool-cases b) [
          | inl marked ↦ record {
            after = m;
            runs =
                push-some m p at_m
                ∙ ap (λ (t : Bool). some (if t then m else mark_object p (with_mark b o) m)) marked;
            pushed = Pushed-refl environments P m;
            marked = (is_marked-some m.objects p at_m ∙ marked, tt);
          }
          | inr free ↦
              let pushed = Pushed-mark environments P m p (with_mark b o) at_m free h in
              record {
                after = mark_object p (with_mark b o) m;
                runs =
                    push-some m p at_m
                    ∙ ap (λ (t : Bool). some (if t then m else mark_object p (with_mark b o) m))
                        free;
                pushed = pushed;
                marked = (
                  is_marked-some (mark_object p (with_mark b o) m).objects p
                      (object_at-set_self m.objects p (some (with_mark true o)) at_m),
                  tt,
                );
              }
        ]

    Kept-after :
        (m n : Marking) → Kept base m.objects → Pushed environments P m n → Kept base n.objects
    Kept-after m n kept pushed = Kept-trans base m.objects n.objects kept pushed.kept

    -- Pushes one after the other.
    pub Marks-then :
        (m : Marking) (run : Option Marking) (f : Marking → Option Marking) (vs ws : List Value)
        → (first : Marks environments P m run vs)
        → Marks environments P first.after (f first.after) ws
        → Marks environments P m (run >>= f) (vs ++ ws)
    Marks-then m run f vs ws first second = record {
      after = second.after;
      runs = ap (λ r. r >>= f) first.runs ∙ second.runs;
      pushed = Pushed-trans environments P m first.after second.after first.pushed second.pushed;
      marked =
          All-append (IsMarkedValue second.after) vs ws
            (All-marked-Kept first.after second.after vs second.pushed.kept first.marked)
            second.marked;
    }

    pub push_all-Marks :
        (vs : List Value) (m : Marking)
        → Kept base m.objects
        → All (Points P) vs
        → Marks environments P m (push_all vs m) vs
    unfolding push_all
    push_all-Marks [] m kept h = record {
      after = m;
      runs = refl;
      pushed = Pushed-refl environments P m;
      marked = tt;
    }
    push_all-Marks (v ∷ vs) m kept h =
        let first = push-Marks v m kept h.0 in
        Marks-then m (push v m) (push_all vs) (v ∷ []) vs first (
          push_all-Marks vs first.after
            (Kept-trans base m.objects first.after.objects kept first.pushed.kept) h.1)

    pub visit_environment-Marks :
        (e : Option ℕ) (m : Marking)
        → Kept base m.objects
        → AreEntered environments m
        → All (Points P) (shared_values environments e)
        → Marks environments P m (visit_environment environments e m) (shared_values environments e)
    unfolding visit_environment
    visit_environment-Marks none m kept entered h = record {
      after = m;
      runs = refl;
      pushed = Pushed-refl environments P m;
      marked = tt;
    }
    visit_environment-Marks (some e) m kept entered h =
        elim (Bool-cases (is_one_of e m.marked_closure_environments)) [
          | inl old ↦ record {
            after = m;
            runs = rw old;
            pushed = Pushed-refl environments P m;
            marked = entered e (is_one_of-Member e m.marked_closure_environments old);
          }
          | inr new ↦
              let inside =
                push_all-Marks (environment_values environments e)
                  (enter_environment environments e m) kept h in
              let pushed = inside.pushed in
              record {
                after = inside.after;
                runs = rw new inside.runs;
                pushed = record {
                  kept = pushed.kept;
                  stays = pushed.stays;
                  fresh = pushed.fresh;
                  stacked = pushed.stacked;
                  measure = pushed.measure;
                  entered = λ d at_d. elim (pushed.entered d at_d) [
                    | inl (inl same) ↦ inr (
                        subst
                          (λ r.
                            All (IsMarkedValue inside.after) (environment_values environments r))
                          (sym same) inside.marked)
                    | inl (inr old) ↦ inl old
                    | inr all ↦ inr all
                  ];
                };
                marked = inside.marked;
              }
        ]

    pub visit_environments-Marks :
        (es : List (Option ℕ)) (m : Marking)
        → Kept base m.objects
        → AreEntered environments m
        → All (Points P) (owner_values environments es)
        → Marks environments P m
            (visit_environments environments es m)
            (owner_values environments es)
    unfolding visit_environments
    visit_environments-Marks [] m kept entered h = record {
      after = m;
      runs = refl;
      pushed = Pushed-refl environments P m;
      marked = tt;
    }
    visit_environments-Marks (e ∷ es) m kept entered h =
        let (here, behind) =
          All-append_parts (Points P) (shared_values environments e) (owner_values environments es)
            h in
        let first = visit_environment-Marks e m kept entered here in
        Marks-then m (visit_environment environments e m) (visit_environments environments es)
          (shared_values environments e) (owner_values environments es) first
          (visit_environments-Marks es first.after
            (Kept-trans base m.objects first.after.objects kept first.pushed.kept)
            (AreEntered-Pushed environments P m first.after first.pushed entered) behind)

    pub visit-Marks :
        (payload : Payload) (m : Marking)
        → Kept base m.objects
        → AreEntered environments m
        → All (Points P) (children environments payload)
        → Marks environments P m (visit environments payload m) (children environments payload)
    unfolding visit
    visit-Marks (string_obj v) m kept entered h = push-Marks v m kept h.0
    visit-Marks (object_obj o) m kept entered h = push_all-Marks (object_values o) m kept h
    visit-Marks (class_instance_obj vs capacity) m kept entered h = push_all-Marks vs m kept h
    visit-Marks regex_obj m kept entered h = record {
      after = m;
      runs = refl;
      pushed = Pushed-refl environments P m;
      marked = tt;
    }
    visit-Marks (array_obj v capacity properties) m kept entered h =
        let (elements, fields) = All-append_parts (Points P) v (property_values properties) h in
        let first = push_all-Marks v m kept elements in
        Marks-then m (push_all v m) (push_all (property_values properties)) v
          (property_values properties) first
          (push_all-Marks (property_values properties) first.after
            (Kept-after m first.after kept first.pushed) fields)
    visit-Marks (delegate_data target handler) m kept entered h =
        let first = push-Marks target m kept h.0 in
        Marks-then m (push target m) (push handler) (target ∷ []) (handler ∷ []) first
          (push-Marks handler first.after (Kept-after m first.after kept first.pushed) h.1.0)
    visit-Marks (handle_data result error task) m kept entered h =
        let first = push-Marks result m kept h.0 in
        let kept1 = Kept-after m first.after kept first.pushed in
        let second = push-Marks error first.after kept1 h.1.0 in
        let kept2 = Kept-after first.after second.after kept1 second.pushed in
        Marks-then m (push result m) (λ m1. push error m1 >>= push_all (task_values task))
          (result ∷ []) (error ∷ task_values task) first
          (Marks-then first.after (push error first.after) (push_all (task_values task))
            (error ∷ []) (task_values task) second
            (push_all-Marks (task_values task) second.after kept2 h.1.1))
    visit-Marks (function_data f) m kept entered h =
        let captured = capture_values f.captures in
        let shared = shared_values environments f.closure_env in
        let owned = owner_values environments (owner_environments f) in
        let fields = property_values f.properties in
        let (h1, t1) = All-append_parts (Points P) captured (shared ++ (owned ++ fields)) h in
        let (h2, t2) = All-append_parts (Points P) shared (owned ++ fields) t1 in
        let (h3, h4) = All-append_parts (Points P) owned fields t2 in
        let first = push_all-Marks captured m kept h1 in
        let kept1 = Kept-after m first.after kept first.pushed in
        let entered1 = AreEntered-Pushed environments P m first.after first.pushed entered in
        let second = visit_environment-Marks f.closure_env first.after kept1 entered1 h2 in
        let kept2 = Kept-after first.after second.after kept1 second.pushed in
        let entered2 =
          AreEntered-Pushed environments P first.after second.after second.pushed entered1 in
        let third =
          visit_environments-Marks (owner_environments f) second.after kept2 entered2 h3 in
        let kept3 = Kept-after second.after third.after kept2 third.pushed in
        Marks-then m (push_all captured m)
          (λ m1. visit_environment environments f.closure_env m1 >>= λ m2.
            visit_environments environments (owner_environments f) m2 >>= push_all fields)
          captured (shared ++ (owned ++ fields)) first
          (Marks-then first.after (visit_environment environments f.closure_env first.after)
            (λ m2. visit_environments environments (owner_environments f) m2 >>= push_all fields)
            shared (owned ++ fields) second
            (Marks-then second.after
              (visit_environments environments (owner_environments f) second.after)
              (push_all fields) owned fields third (push_all-Marks fields third.after kept3 h4)))
