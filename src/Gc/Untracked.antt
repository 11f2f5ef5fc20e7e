-- ===== src/Gc/Untracked.antt =====
-- gc.cpp: `untrack`, which fills the place of an object in the registry with the last entry.
use nari.Prelude.{
  some_injective, ℕ, ◌+◌, ◌-◌, ◌<◌, ◌≡◌, refl, sym, ap, ◌∙◌, subst, ◌≢◌, inl, inr, arith, Bool,
  true, false, List, Option, none, some, length, get_or, set, take, get_elem?, get_elem?-set_self,
  get_elem?-set_ne, get_elem?-lt-length, Bool-cases, Option-cases, ◌==◌, ==→eq, ==→ne,
}
use nari.Gc.Heap.{Object, Heap, object_at, put, is_marked}
use nari.Gc.Cells.{eq-cases, is_marked-some}
use nari.Gc.Collector.{Memory, untrack, untrack_object, update, with_index, with_tracked}
use nari.Gc.Shuffle.{At, IsDistinct, At-get_or}
use nari.Gc.Loops.{object_at-update_self, object_at-update_ne}
use nari.Gc.Registry.{IsRegistry, IsRegistry-IsDistinct}
use nari.Gc.Swept.{get_elem?-take, At-take_lt}
use nari.Gc.Collected.{IsIdle}

-- A change that keeps the mark of an object keeps all marks.
is_marked-update :
    (f : Object → Object) (p q : ℕ) (h : Heap)
    → ((o : Object) → (f o).header.gc_marked ≡ o.header.gc_marked)
    → is_marked (update f p h) q ≡ is_marked h q
is_marked-update f p q h same_mark =
    let mark : Option Object → Bool = λ c. elim c [ none ↦ false | some r ↦ r.header.gc_marked ] in
    elim (eq-cases p q) [
      | inr ne ↦ ap mark (object_at-update_ne f p q h ne)
      | inl same ↦ elim (Option-cases (object_at h p)) [
        | inl missed ↦
            ap (λ (c : Option Object). is_marked (elim c [ none ↦ h | some r ↦ put h p (f r) ]) q)
              missed
        | inr (o, e) ↦
            ap (is_marked (update f p h)) (sym same)
            ∙ is_marked-some (update f p h) p (object_at-update_self f p h o e)
            ∙ same_mark o
            ∙ sym (is_marked-some h p e)
            ∙ ap (is_marked h) same
      ]
    ]

-- The object that has just left the registry is not tracked.
gone :
    (c : Option Object) (o o2 : Object)
    → c ≡ some (with_tracked false o)
    → c ≡ some o2
    → o2.header.gc_tracked ≡ true
    → ⊥
gone c o o2 at_q e2 t2 =
    let same = some_injective (sym at_q ∙ e2) in
    absurd (cc (ap (λ (x : Object). x.header.gc_tracked) same ∙ t2))

-- Object `p` at index `i` of the registry, and `last` at its end.
module _ (h : Heap) (l : List ℕ) (r : IsRegistry h l) (p : ℕ) (o : Object)
    (e : object_at h p ≡ some o) (t : o.header.gc_tracked ≡ true) where
  abbrev i : ℕ
  i = o.header.gc_index

  listed_here : At l i p
  listed_here = r.listed p o e t

  i_lt : i < length l
  i_lt = get_elem?-lt-length l i listed_here

  abbrev last : ℕ
  last = get_or l (length l - 1) 0

  listed_last : At l (length l - 1) last
  listed_last = At-get_or l (length l - 1) (let less = i_lt in omega arith)

  d : IsDistinct l
  d = IsRegistry-IsDistinct h l r

  -- Where `p` is the last entry.
  IsRegistry-pop :
      i + 1 ≡ length l → IsRegistry (update (with_tracked false) p h) (take (length l - 1) l)
  IsRegistry-pop end = record {
    here = λ j q at.
        let less = At-take_lt (length l - 1) l j q at in
        let at_l : At l j q = sym (get_elem?-take (length l - 1) l j less) ∙ at in
        let ne : p ≢ q =
          λ same. absurd (let index = d i j q (listed_here ∙ ap some same) at_l in omega arith) in
        let (o2, e2, t2, index) = r.here j q at_l in
        (o2, object_at-update_ne (with_tracked false) p q h ne ∙ e2, t2, index);
    listed = λ q o2 e2 t2. elim (eq-cases p q) [
      | inl same ↦ absurd (
          gone (object_at (update (with_tracked false) p h) q) o o2
            (ap (object_at (update (with_tracked false) p h)) (sym same)
              ∙ object_at-update_self (with_tracked false) p h o e)
            e2 t2)
      | inr ne ↦
          let at =
            r.listed q o2 (sym (object_at-update_ne (with_tracked false) p q h ne) ∙ e2) t2 in
          let index_less = get_elem?-lt-length l o2.header.gc_index at in
          let index_ne : o2.header.gc_index ≢ i =
            λ same. ne (some_injective (sym listed_here ∙ ap (get_elem? l) (sym same) ∙ at)) in
          get_elem?-take (length l - 1) l o2.header.gc_index (omega arith) ∙ at
    ];
  }

  abbrev moved : Heap
  moved = update (with_index i) last h

  abbrev filled : List ℕ
  filled = set l i last

  -- Elsewhere the last entry takes its place.
  IsRegistry-move :
      i + 1 ≢ length l
      → IsRegistry (update (with_tracked false) p moved) (take (length l - 1) filled)
  IsRegistry-move inner =
      let less : i < length l - 1 = (let less = i_lt in omega arith) in
      let ne_last : p ≢ last = λ same. absurd (
        let index = d i (length l - 1) last (listed_here ∙ ap some same) listed_last in
        omega arith) in
      let last_ne : last ≢ p = λ same. ne_last (sym same) in
      let (ol, el, tl, il) = r.here (length l - 1) last listed_last in
      let at_p : object_at moved p ≡ some o =
        object_at-update_ne (with_index i) last p h last_ne ∙ e in
      let still : (q : ℕ)
          → p ≢ q
          → last ≢ q
          → object_at (update (with_tracked false) p moved) q ≡ object_at h q =
        λ q ne ne2.
          object_at-update_ne (with_tracked false) p q moved ne
          ∙ object_at-update_ne (with_index i) last q h ne2 in
      let new_last : object_at (update (with_tracked false) p moved) last ≡ some (with_index i ol) =
        object_at-update_ne (with_tracked false) p last moved ne_last
        ∙ object_at-update_self (with_index i) last h ol el in
      let at_hole : At (take (length l - 1) filled) i last =
        get_elem?-take (length l - 1) filled i less ∙ get_elem?-set_self l i last i_lt in
      record {
        here = λ j q at.
            let j_less = At-take_lt (length l - 1) filled j q at in
            let at_filled : At filled j q =
              sym (get_elem?-take (length l - 1) filled j j_less) ∙ at in
            elim (eq-cases i j) [
              | inl same ↦
                  let is_last : last ≡ q = some_injective (
                    sym (get_elem?-set_self l i last i_lt)
                    ∙ ap (get_elem? filled) same
                    ∙ at_filled) in
                  (
                    with_index i ol,
                    ap (object_at (update (with_tracked false) p moved)) (sym is_last) ∙ new_last,
                    tl,
                    same,
                  )
              | inr ne ↦
                  let at_l : At l j q = sym (get_elem?-set_ne l i j last ne) ∙ at_filled in
                  let ne_p : p ≢ q = λ same. ne (d i j q (listed_here ∙ ap some same) at_l) in
                  let ne_q : last ≢ q = λ same. absurd (
                    let index = d (length l - 1) j q (listed_last ∙ ap some same) at_l in
                    omega arith) in
                  let (o2, e2, t2, index) = r.here j q at_l in
                  (o2, still q ne_p ne_q ∙ e2, t2, index)
            ];
        listed = λ q o2 e2 t2. elim (eq-cases p q) [
          | inl same ↦ absurd (
              gone (object_at (update (with_tracked false) p moved) q) o o2
                (ap (object_at (update (with_tracked false) p moved)) (sym same)
                  ∙ object_at-update_self (with_tracked false) p moved o at_p)
                e2 t2)
          | inr ne ↦ elim (eq-cases last q) [
            | inl same ↦
                let same_object : with_index i ol ≡ o2 =
                  some_injective (
                    sym new_last
                    ∙ ap (object_at (update (with_tracked false) p moved)) same
                    ∙ e2) in
                subst (λ k. At (take (length l - 1) filled) k q)
                  (ap (λ (x : Object). x.header.gc_index) same_object) (at_hole ∙ ap some same)
            | inr ne2 ↦
                let at = r.listed q o2 (sym (still q ne ne2) ∙ e2) t2 in
                let index_less = get_elem?-lt-length l o2.header.gc_index at in
                let hole_ne : i ≢ o2.header.gc_index =
                  λ same. ne (some_injective (sym listed_here ∙ ap (get_elem? l) same ∙ at)) in
                let end_ne : length l - 1 ≢ o2.header.gc_index =
                  λ same. ne2 (some_injective (sym listed_last ∙ ap (get_elem? l) same ∙ at)) in
                get_elem?-take (length l - 1) filled o2.header.gc_index (omega arith)
                ∙ get_elem?-set_ne l i o2.header.gc_index last hole_ne
                ∙ at
          ]
        ];
      }

pub untrack-at :
    (p : ℕ) (m : Memory) (c : Option Object)
    → object_at m.objects p ≡ c
    → untrack p m ≡ elim c [ none ↦ m | some o ↦ untrack_object p o m ]
unfolding untrack
untrack-at p m c e =
    ap (λ (r : Option Object). elim r [ none ↦ m | some o ↦ untrack_object p o m ]) e

untrack_object-IsIdle :
    (p : ℕ) (o : Object) (m : Memory)
    → IsIdle m
    → object_at m.objects p ≡ some o
    → IsIdle (untrack_object p o m)
unfolding untrack_object
untrack_object-IsIdle p o m idle e =
    let h = m.objects in
    let l = m.gc.tracked_objects in
    let r = idle.registry in
    elim (Bool-cases o.header.gc_tracked) [
      | inr free ↦ rw free idle
      | inl t ↦ elim (Bool-cases (o.header.gc_index + 1 == length l)) [
        | inl end ↦
            rw (t, end)
              (record {
                registry =
                    IsRegistry-pop h l r p o e t (==→eq (o.header.gc_index + 1) (length l) end);
                clean = λ q. is_marked-update (with_tracked false) p q h (λ x. refl) ∙ idle.clean q;
                empty = idle.empty;
              })
        | inr inner ↦
            rw (t, inner)
              (record {
                registry =
                    IsRegistry-move h l r p o e t (==→ne (o.header.gc_index + 1) (length l) inner);
                clean = λ q.
                    is_marked-update (with_tracked false) p q (moved h l r p o e t) (λ x. refl)
                    ∙ is_marked-update (with_index o.header.gc_index) (last h l r p o e t) q h
                        (λ x. refl)
                    ∙ idle.clean q;
                empty = idle.empty;
              })
      ]
    ]

-- `untrack` keeps the registry and the headers in agreement.
pub untrack-IsIdle : (p : ℕ) (m : Memory) → IsIdle m → IsIdle (untrack p m)
untrack-IsIdle p m idle = elim (Option-cases (object_at m.objects p)) [
  | inl missed ↦ subst IsIdle (sym (untrack-at p m none missed)) idle
  | inr (o, e) ↦ subst IsIdle (sym (untrack-at p m (some o) e)) (untrack_object-IsIdle p o m idle e)
]
