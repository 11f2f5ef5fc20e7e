-- ===== src/Gc/Marking.antt =====
-- gc.cpp: what the pushes of `mark_value` do to the marks, the worklist and the environments.
use nari.Prelude.{
  ℕ, ◌+◌, ◌≡◌, refl, sym, ap, ◌∙◌, subst, ◌⊎◌, inl, inr, arith, Bool, true, false, List, Option,
  none, some, length, All, All-map, Member,
}
use nari.Gc.Heap.{Value, none_value, scalar, heap, Object, object_at, put, with_mark, is_marked}
use nari.Gc.Cells.{
  Kept, Kept-refl, Kept-trans, Kept-is_marked, Kept-mark, object_at-set_self, object_at-set_ne,
  eq-cases, is_marked-some, unmarked, unmarked-mark,
}
use nari.Gc.Mark.{Marking, mark_object, environment_values}

-- The mark in a cell.
abbrev pub mark_of : Option Object → Bool
mark_of c = elim c [ none ↦ false | some o ↦ o.header.gc_marked ]

abbrev pub IsMarked : Marking → ℕ → Type 0
IsMarked m q = is_marked m.objects q ≡ true

-- The target of a pointer bears a mark.
abbrev pub IsMarkedValue : Marking → Value → Type 0
IsMarkedValue m none_value = Unit
IsMarkedValue m (scalar bits) = Unit
IsMarkedValue m (heap none) = Unit
IsMarkedValue m (heap (some p)) = IsMarked m p

abbrev pub Points : (ℕ → Type 0) → Value → Type 0
Points P none_value = Unit
Points P (scalar bits) = Unit
Points P (heap none) = Unit
Points P (heap (some p)) = P p

-- What pushes make of `m`, where they go to objects in `P` only.
pub record Pushed (environments : List (List Value)) (P : ℕ → Type 0) (m n : Marking) : Type 0 where
  pub kept : Kept m.objects n.objects
  pub stays : (q : ℕ) → Member q m.mark_stack → Member q n.mark_stack
  pub fresh : (q : ℕ) → IsMarked n q → IsMarked m q ⊎ (Member q n.mark_stack × P q)
  pub stacked : (q : ℕ) → Member q n.mark_stack → Member q m.mark_stack ⊎ IsMarked n q
  pub measure : unmarked n.objects + length n.mark_stack ≡ unmarked m.objects + length m.mark_stack
  pub entered :
      (e : ℕ)
      → Member e n.marked_closure_environments
      → Member e m.marked_closure_environments
        ⊎ All (IsMarkedValue n) (environment_values environments e)

pub IsMarkedValue-Kept :
    (m n : Marking) (v : Value) → Kept m.objects n.objects → IsMarkedValue m v → IsMarkedValue n v
IsMarkedValue-Kept m n none_value kept h = tt
IsMarkedValue-Kept m n (scalar bits) kept h = tt
IsMarkedValue-Kept m n (heap none) kept h = tt
IsMarkedValue-Kept m n (heap (some p)) kept h = Kept-is_marked m.objects n.objects p kept h

pub All-marked-Kept :
    (m n : Marking) (vs : List Value)
    → Kept m.objects n.objects
    → All (IsMarkedValue m) vs
    → All (IsMarkedValue n) vs
All-marked-Kept m n vs kept =
    All-map (IsMarkedValue m) (IsMarkedValue n) vs (λ v. IsMarkedValue-Kept m n v kept)

module _ (environments : List (List Value)) (P : ℕ → Type 0) where
  pub Pushed-refl : (m : Marking) → Pushed environments P m m
  Pushed-refl m = record {
    kept = Kept-refl m.objects;
    stays = λ q h. h;
    fresh = λ q h. inl h;
    stacked = λ q h. inl h;
    measure = refl;
    entered = λ e h. inl h;
  }

  pub Pushed-trans :
      (m n k : Marking)
      → Pushed environments P m n
      → Pushed environments P n k
      → Pushed environments P m k
  Pushed-trans m n k first second = record {
    kept = Kept-trans m.objects n.objects k.objects first.kept second.kept;
    stays = λ q h. second.stays q (first.stays q h);
    fresh = λ q h. elim (second.fresh q h) [
      | inl old ↦ elim (first.fresh q old) [
        | inl older ↦ inl older
        | inr (on, p) ↦ inr (second.stays q on, p)
      ]
      | inr new ↦ inr new
    ];
    stacked = λ q h. elim (second.stacked q h) [
      | inl old ↦ elim (first.stacked q old) [
        | inl older ↦ inl older
        | inr mark ↦ inr (Kept-is_marked n.objects k.objects q second.kept mark)
      ]
      | inr mark ↦ inr mark
    ];
    measure = second.measure ∙ first.measure;
    entered = λ e h. elim (second.entered e h) [
      | inl old ↦ elim (first.entered e old) [
        | inl older ↦ inl older
        | inr all ↦ inr (All-marked-Kept n k (environment_values environments e) second.kept all)
      ]
      | inr all ↦ inr all
    ];
  }

  -- An object that had no mark goes on the worklist.
  pub Pushed-mark :
      (m : Marking) (p : ℕ) (o : Object)
      → object_at m.objects p ≡ some o
      → o.header.gc_marked ≡ false
      → P p
      → Pushed environments P m (mark_object p o m)
  Pushed-mark m p o e free at_p =
      let marked = some (with_mark true o) in
      let self : is_marked (put m.objects p (with_mark true o)) p ≡ true =
        is_marked-some (put m.objects p (with_mark true o)) p
          (object_at-set_self m.objects p marked e) in
      record {
        kept = Kept-mark m.objects p o e;
        stays = λ q h. inr h;
        fresh = λ q h. elim (eq-cases p q) [
          | inl same ↦ inr (inl (sym same), subst P same at_p)
          | inr ne ↦ inl (sym (ap mark_of (object_at-set_ne m.objects p q marked ne)) ∙ h)
        ];
        stacked = λ q h. elim h [
          | inl same ↦
              inr (
                subst (λ r. is_marked (put m.objects p (with_mark true o)) r ≡ true) (sym same)
                  self)
          | inr old ↦ inl old
        ];
        measure = omega (arith, unmarked-mark m.objects p o e free);
        entered = λ e2 h. inl h;
      }
