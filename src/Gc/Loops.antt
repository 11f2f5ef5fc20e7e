-- ===== src/Gc/Loops.antt =====
-- gc.cpp: the loops of `sweep` over the objects to keep and over the garbage.
use nari.Prelude.{
  ℕ, zero, suc, ◌+◌, ◌≡◌, refl, sym, ap, ◌∙◌, subst, ◌≢◌, inl, inr, arith, Bool, false, List, [],
  ◌∷◌, Option, none, some, set, Member, Bool-cases, Option-cases, if◌then◌else◌,
}
use nari.Gc.Heap.{
  Payload, string_obj, array_obj, object_obj, function_data, handle_data, class_instance_obj,
  regex_obj, delegate_data, Object, Heap, object_at, put, with_mark,
}
use nari.Gc.Cells.{object_at-set_self, object_at-set_ne}
use nari.Gc.Collector.{update, with_index, give_back}
use nari.Gc.Shuffle.{At, IsDistinct}
use nari.Gc.Sweep.{
  keep_all, clear_all, clear_object, cleared, delete_all, delete, is_deleted, est_at,
}

abbrev pub Missing : ℕ → List ℕ → Type 0
Missing q ps = Member q ps → ⊥

module _ (f : Object → Object) where
  pub object_at-update_self :
      (p : ℕ) (h : Heap) (o : Object)
      → object_at h p ≡ some o
      → object_at (update f p h) p ≡ some (f o)
  object_at-update_self p h o e =
      ap (λ (c : Option Object). object_at (elim c [ none ↦ h | some r ↦ put h p (f r) ]) p) e
      ∙ object_at-set_self h p (some (f o)) e

  pub object_at-update_ne :
      (p q : ℕ) (h : Heap) → p ≢ q → object_at (update f p h) q ≡ object_at h q
  object_at-update_ne p q h ne = elim (Option-cases (object_at h p)) [
    | inl missed ↦
        ap (λ (c : Option Object). object_at (elim c [ none ↦ h | some r ↦ put h p (f r) ]) q)
          missed
    | inr (o, e) ↦
        ap (λ (c : Option Object). object_at (elim c [ none ↦ h | some r ↦ put h p (f r) ]) q) e
        ∙ object_at-set_ne h p q (some (f o)) ne
  ]

abbrev pub kept_object : ℕ → Object → Object
kept_object i o = with_mark false (with_index i o)

pub keep_all-Missing :
    (i : ℕ) (ps : List ℕ) (h : Heap) (q : ℕ)
    → Missing q ps
    → object_at (keep_all i ps h) q ≡ object_at h q
unfolding keep_all
keep_all-Missing i [] h q out = refl
keep_all-Missing i (p ∷ ps) h q out =
    keep_all-Missing (i + 1) ps (update (kept_object i) p h) q (λ m. out (inr m))
    ∙ object_at-update_ne (kept_object i) p q h (λ e. out (inl (sym e)))

pub Member-At : (l : List ℕ) (p : ℕ) → Member p l → (i : ℕ) × At l i p
Member-At [] p m = absurd m
Member-At (x ∷ l) p (inl e) = (0, ap some (sym e))
Member-At (x ∷ l) p (inr m) = let (i, at) = Member-At l p m in (suc i, at)

pub At-Member : (l : List ℕ) (i p : ℕ) → At l i p → Member p l
At-Member [] i p h = absurd (cc)
At-Member (x ∷ l) zero p h = inl (cc)
At-Member (x ∷ l) (suc i) p h = inr (At-Member l i p h)

pub IsDistinct-tail : (x : ℕ) (l : List ℕ) → IsDistinct (x ∷ l) → IsDistinct l
IsDistinct-tail x l d i j p a b = let e = d (suc i) (suc j) p a b in omega arith

pub IsDistinct-head : (x : ℕ) (l : List ℕ) → IsDistinct (x ∷ l) → Missing x l
IsDistinct-head x l d m =
    let (i, at) = Member-At l x m in let e = d 0 (suc i) x refl at in absurd (omega arith)

-- Each object to keep gets its new index, and loses its mark.
pub keep_all-At :
    (i : ℕ) (ps : List ℕ) (h : Heap) (j q : ℕ) (o : Object)
    → IsDistinct ps
    → At ps j q
    → object_at h q ≡ some o
    → object_at (keep_all i ps h) q ≡ some (kept_object (i + j) o)
unfolding keep_all
keep_all-At i [] h j q o d at e = absurd (cc)
keep_all-At i (p ∷ ps) h zero q o d at e =
    let same : p ≡ q = cc in
    let zero_add : i + 0 ≡ i = omega arith in
    keep_all-Missing (i + 1) ps (update (kept_object i) p h) q
      (subst (λ r. Missing r ps) same (IsDistinct-head p ps d))
    ∙ ap (λ r. object_at (update (kept_object i) r h) q) same
    ∙ object_at-update_self (kept_object i) q h o e
    ∙ ap (λ n. some (kept_object n o)) (sym zero_add)
keep_all-At i (p ∷ ps) h (suc j) q o d at e =
    let ne : p ≢ q =
      λ same. IsDistinct-head p ps d (subst (λ r. Member r ps) (sym same) (At-Member ps j q at)) in
    let assoc : i + 1 + j ≡ i + suc j = omega arith in
    keep_all-At (i + 1) ps (update (kept_object i) p h) j q o (IsDistinct-tail p ps d) at
      (object_at-update_ne (kept_object i) p q h ne ∙ e)
    ∙ ap (λ n. some (kept_object n o)) assoc

pub clear_all-Missing :
    (ps : List ℕ) (h : Heap) (usage q : ℕ)
    → Missing q ps
    → object_at (clear_all ps h usage).0 q ≡ object_at h q
unfolding clear_all
clear_all-Missing [] h usage q out = refl
clear_all-Missing (p ∷ ps) h usage q out =
    clear_all-Missing ps (update clear_object p h) (give_back (est_at h p) usage) q
      (λ m. out (inr m))
    ∙ object_at-update_ne clear_object p q h (λ e. out (inl (sym e)))

-- The garbage is emptied.
pub clear_all-At :
    (ps : List ℕ) (h : Heap) (usage j q : ℕ) (o : Object)
    → IsDistinct ps
    → At ps j q
    → object_at h q ≡ some o
    → object_at (clear_all ps h usage).0 q ≡ some (clear_object o)
unfolding clear_all
clear_all-At [] h usage j q o d at e = absurd (cc)
clear_all-At (p ∷ ps) h usage zero q o d at e =
    let same : p ≡ q = cc in
    clear_all-Missing ps (update clear_object p h) (give_back (est_at h p) usage) q
      (subst (λ r. Missing r ps) same (IsDistinct-head p ps d))
    ∙ ap (λ r. object_at (update clear_object r h) q) same
    ∙ object_at-update_self clear_object q h o e
clear_all-At (p ∷ ps) h usage (suc j) q o d at e =
    let ne : p ≢ q =
      λ same. IsDistinct-head p ps d (subst (λ r. Member r ps) (sym same) (At-Member ps j q at)) in
    clear_all-At ps (update clear_object p h) (give_back (est_at h p) usage) j q o
      (IsDistinct-tail p ps d) at (object_at-update_ne clear_object p q h ne ∙ e)

pub is_deleted-cleared : (p : Payload) → is_deleted (cleared p) ≡ is_deleted p
unfolding cleared
is_deleted-cleared (string_obj v) = refl
is_deleted-cleared (array_obj v capacity properties) = refl
is_deleted-cleared (object_obj o) = refl
is_deleted-cleared (function_data f) = refl
is_deleted-cleared (handle_data result error task) = refl
is_deleted-cleared (class_instance_obj vs capacity) = refl
is_deleted-cleared regex_obj = refl
is_deleted-cleared (delegate_data target handler) = refl

delete-some :
    (p : ℕ) (h : Heap) (o : Object)
    → object_at h p ≡ some o
    → delete p h ≡ (if is_deleted o.payload then set h p none else h)
delete-some p h o e =
    ap
      (λ (c : Option Object). elim c [
        | none ↦ h
        | some r ↦ if is_deleted r.payload then set h p none else h
      ])
      e

delete-none : (p : ℕ) (h : Heap) → object_at h p ≡ none → delete p h ≡ h
delete-none p h e =
    ap
      (λ (c : Option Object). elim c [
        | none ↦ h
        | some r ↦ if is_deleted r.payload then set h p none else h
      ])
      e

delete_ne : (p q : ℕ) (h : Heap) → p ≢ q → object_at (delete p h) q ≡ object_at h q
delete_ne p q h ne = elim (Option-cases (object_at h p)) [
  | inl missed ↦ ap (λ k. object_at k q) (delete-none p h missed)
  | inr (o, e) ↦ elim (Bool-cases (is_deleted o.payload)) [
    | inl goes ↦
        ap (λ k. object_at k q)
          (delete-some p h o e ∙ ap (λ (b : Bool). if b then set h p none else h) goes)
        ∙ object_at-set_ne h p q none ne
    | inr stays ↦
        ap (λ k. object_at k q)
          (delete-some p h o e ∙ ap (λ (b : Bool). if b then set h p none else h) stays)
  ]
]

pub delete_all-Missing :
    (ps : List ℕ) (h : Heap) (q : ℕ) → Missing q ps → object_at (delete_all ps h) q ≡ object_at h q
unfolding delete_all
delete_all-Missing [] h q out = refl
delete_all-Missing (p ∷ ps) h q out =
    delete_ne p q (delete_all ps h) (λ e. out (inl (sym e)))
    ∙ delete_all-Missing ps h q (λ m. out (inr m))

-- An object of the garbage goes, unless `sweep` has no `delete` for it.
pub delete_all-At :
    (ps : List ℕ) (h : Heap) (j q : ℕ) (o : Object)
    → IsDistinct ps
    → At ps j q
    → object_at h q ≡ some o
    → object_at (delete_all ps h) q ≡ (if is_deleted o.payload then none else some o)
unfolding delete_all
delete_all-At [] h j q o d at e = absurd (cc)
delete_all-At (p ∷ ps) h zero q o d at e =
    let same : p ≡ q = cc in
    let rest : object_at (delete_all ps h) q ≡ some o =
      delete_all-Missing ps h q (subst (λ r. Missing r ps) same (IsDistinct-head p ps d)) ∙ e in
    ap (λ r. object_at (delete r (delete_all ps h)) q) same
    ∙ ap (λ k. object_at k q) (delete-some q (delete_all ps h) o rest)
    ∙ elim (Bool-cases (is_deleted o.payload)) [
      | inl goes ↦
          ap
            (λ (b : Bool).
              object_at (if b then set (delete_all ps h) q none else delete_all ps h) q)
            goes
          ∙ object_at-set_self (delete_all ps h) q none rest
          ∙ ap (λ (b : Bool). if b then none else some o) (sym goes)
      | inr stays ↦
          ap
            (λ (b : Bool).
              object_at (if b then set (delete_all ps h) q none else delete_all ps h) q)
            stays
          ∙ rest
          ∙ ap (λ (b : Bool). if b then none else some o) (sym stays)
    ]
delete_all-At (p ∷ ps) h (suc j) q o d at e =
    let ne : p ≢ q =
      λ same. IsDistinct-head p ps d (subst (λ r. Member r ps) (sym same) (At-Member ps j q at)) in
    delete_ne p q (delete_all ps h) ne ∙ delete_all-At ps h j q o (IsDistinct-tail p ps d) at e
