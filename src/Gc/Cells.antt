-- ===== src/Gc/Cells.antt =====
-- core_types.h: what a write to one object leaves of the others, and what marking leaves of an object.
use nari.Prelude.{
  ℕ, zero, suc, ◌≤◌, ◌<◌, ◌≡◌, refl, sym, ap, ◌∙◌, ◌≢◌, ◌⊎◌, inl, inr, arith, Bool, true, false, [],
  ◌∷◌, Option, none, some, length, get_elem?, set, get_elem?-set_self, get_elem?-set_ne,
  get_elem?-lt-length, length-set, Bool-cases, Option-cases, ◌==◌, ==→eq, ==→ne, if◌then◌else◌,
}
use nari.Gc.Heap.{Object, Heap, object_at, put, with_mark, is_marked}

pub object_at-get_elem? :
    (h : Heap) (p : ℕ) {o : Object} → object_at h p ≡ some o → get_elem? h p ≡ some (some o)
object_at-get_elem? h p e = elim (Option-cases (get_elem? h p)) [
  | inl missed ↦ absurd (cc)
  | inr (c, found) ↦ cc
]

pub object_at-lt : (h : Heap) (p : ℕ) {o : Object} → object_at h p ≡ some o → p < length h
object_at-lt h p e = get_elem?-lt-length h p (object_at-get_elem? h p e)

pub object_at-set_self :
    (h : Heap) (p : ℕ) (c : Option Object) {o : Object}
    → object_at h p ≡ some o
    → object_at (set h p c) p ≡ c
object_at-set_self h p c e = rw (get_elem?-set_self h p c (object_at-lt h p e))

pub object_at-set_ne :
    (h : Heap) (p q : ℕ) (c : Option Object) → p ≢ q → object_at (set h p c) q ≡ object_at h q
object_at-set_ne h p q c ne = rw (get_elem?-set_ne h p q c ne)

pub eq-cases : (p q : ℕ) → (p ≡ q) ⊎ (p ≢ q)
eq-cases p q = elim (Bool-cases (p == q)) [ inl e ↦ inl (==→eq p q e) | inr e ↦ inr (==→ne p q e) ]

pub is_marked-some :
    (h : Heap) (p : ℕ) {o : Object} → object_at h p ≡ some o → is_marked h p ≡ o.header.gc_marked
is_marked-some h p e = ap (λ c. elim c [ none ↦ false | some o ↦ o.header.gc_marked ]) e

pub is_marked-object :
    (h : Heap) (p : ℕ)
    → is_marked h p ≡ true
    → (o : Object) × (object_at h p ≡ some o) × (o.header.gc_marked ≡ true)
is_marked-object h p e = elim (Option-cases (object_at h p)) [
  | inl missed ↦ absurd (cc)
  | inr (o, found) ↦ (o, found, cc)
]

-- Objects stay where they are, but for their marks, of which none goes.
pub record Kept (h k : Heap) : Type 0 where
  pub here :
      (q : ℕ) (o : Object)
      → object_at h q ≡ some o
      → (b : Bool) × (object_at k q ≡ some (with_mark b o)) × (o.header.gc_marked ≡ true → b ≡ true)
  pub absent : (q : ℕ) → object_at h q ≡ none → object_at k q ≡ none
  pub size : length k ≡ length h

pub Kept-refl : (h : Heap) → Kept h h
Kept-refl h = record {
  here = λ q o e. (o.header.gc_marked, e, λ m. m);
  absent = λ q e. e;
  size = refl;
}

pub Kept-trans : (h k l : Heap) → Kept h k → Kept k l → Kept h l
Kept-trans h k l first second = record {
  here = λ q o e.
      let (b, at_k, up) = first.here q o e in
      let (c, at_l, up2) = second.here q (with_mark b o) at_k in (c, at_l, λ m. up2 (up m));
  absent = λ q e. second.absent q (first.absent q e);
  size = second.size ∙ first.size;
}

pub Kept-is_marked : (h k : Heap) (q : ℕ) → Kept h k → is_marked h q ≡ true → is_marked k q ≡ true
Kept-is_marked h k q kept m =
    let (o, found, marked) = is_marked-object h q m in
    let (b, at_k, up) = kept.here q o found in is_marked-some k q at_k ∙ up marked

pub Kept-mark :
    (h : Heap) (p : ℕ) (o : Object) → object_at h p ≡ some o → Kept h (put h p (with_mark true o))
Kept-mark h p o e =
    let marked = some (with_mark true o) in
    record {
      here = λ q r at_q. elim (eq-cases p q) [
        | inl same ↦
            let same_object : o ≡ r = cc in
            (true, rw (sym same, object_at-set_self h p marked e, same_object), λ m. refl)
        | inr ne ↦ (r.header.gc_marked, rw (object_at-set_ne h p q marked ne, at_q), λ m. m)
      ];
      absent = λ q none_q. elim (eq-cases p q) [
        | inl same ↦ absurd (cc)
        | inr ne ↦ object_at-set_ne h p q marked ne ∙ none_q
      ];
      size = length-set h p marked;
    }

-- The objects that bear no mark.
unfoldable pub unmarked : Heap → ℕ
unmarked [] = 0
unmarked (none ∷ h) = unmarked h
unmarked (some o ∷ h) = if o.header.gc_marked then unmarked h else suc (unmarked h)

pub unmarked-le : (h : Heap) → unmarked h ≤ length h
unfolding unmarked
unmarked-le [] = omega arith
unmarked-le (none ∷ h) = omega (arith, unmarked-le h)
unmarked-le (some o ∷ h) = ground (arith, unmarked-le h)

pub unmarked-mark :
    (h : Heap) (p : ℕ) (o : Object)
    → object_at h p ≡ some o
    → o.header.gc_marked ≡ false
    → suc (unmarked (put h p (with_mark true o))) ≡ unmarked h
unfolding unmarked
unmarked-mark [] p o e m = absurd (cc)
unmarked-mark (none ∷ h) zero o e m = absurd (cc)
unmarked-mark (some r ∷ h) zero o e m = let same : r ≡ o = cc in rw (same, m)
unmarked-mark (none ∷ h) (suc p) o e m = unmarked-mark h p o e m
unmarked-mark (some r ∷ h) (suc p) o e m = ground (arith, unmarked-mark h p o e m)
