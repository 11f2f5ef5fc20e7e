-- ===== src/Gc/Tracked.antt =====
-- gc.cpp: `track`, which puts an object into the registry.
use nari.Prelude.{
  ℕ, ◌≡◌, refl, sym, ap, ◌∙◌, subst, inl, inr, arith, Bool, true, false, not, ◌||◌, List, [], ◌∷◌,
  ◌++◌, Option, none, some, length, get_elem?, get_elem?-concat, get_elem?-append_left,
  get_elem?-append_length, get_elem?-lt-length, Bool-cases, Option-cases,
}
use nari.Gc.Heap.{Object, Heap, object_at, put, is_marked}
use nari.Gc.Cells.{eq-cases, object_at-set_self, object_at-set_ne, is_marked-some}
use nari.Gc.Collector.{
  Memory, TrackedType, Layout, estimate, register, count_allocation, track, track_object,
  drop_entry,
}
use nari.Gc.Shuffle.{At}
use nari.Gc.Registry.{IsRegistry, untracked_out}
use nari.Gc.Collected.{IsIdle}

-- An object outside of the registry may change, but for its flag.
IsRegistry-put :
    (h : Heap) (l : List ℕ) (p : ℕ) (o x : Object)
    → IsRegistry h l
    → object_at h p ≡ some o
    → o.header.gc_tracked ≡ false
    → x.header.gc_tracked ≡ false
    → IsRegistry (put h p x) l
IsRegistry-put h l p o x r e free still = record {
  here = λ i q at. elim (eq-cases p q) [
    | inl same ↦ absurd (untracked_out h l p o r e free i (subst (λ s. At l i s) (sym same) at))
    | inr ne ↦
        let (o2, e2, t, index) = r.here i q at in
        (o2, object_at-set_ne h p q (some x) ne ∙ e2, t, index)
  ];
  listed = λ q o2 e2 t. elim (eq-cases p q) [
    | inl same ↦
        let at_q : object_at (put h p x) q ≡ some x =
          ap (object_at (put h p x)) (sym same) ∙ object_at-set_self h p (some x) e in
        let same_object : x ≡ o2 = cc in
        absurd (cc (sym still ∙ ap (λ (y : Object). y.header.gc_tracked) same_object ∙ t))
    | inr ne ↦ r.listed q o2 (sym (object_at-set_ne h p q (some x) ne) ∙ e2) t
  ];
}

IsRegistry-register :
    (h : Heap) (l : List ℕ) (est p : ℕ) (o : Object)
    → IsRegistry h l
    → object_at h p ≡ some o
    → o.header.gc_tracked ≡ false
    → IsRegistry (put h p (register est (length l) o)) (l ++ p ∷ [])
IsRegistry-register h l est p o r e free =
    let x : Object = register est (length l) o in
    record {
      here = λ i q at. elim (get_elem?-concat l p i at) [
        | inl old ↦ elim (eq-cases p q) [
          | inl same ↦
              absurd (untracked_out h l p o r e free i (subst (λ s. At l i s) (sym same) old))
          | inr ne ↦
              let (o2, e2, t, index) = r.here i q old in
              (o2, object_at-set_ne h p q (some x) ne ∙ e2, t, index)
        ]
        | inr (last, same) ↦
            (x, ap (object_at (put h p x)) same ∙ object_at-set_self h p (some x) e, refl, sym last)
      ];
      listed = λ q o2 e2 t. elim (eq-cases p q) [
        | inl same ↦
            let at_q : object_at (put h p x) q ≡ some x =
              ap (object_at (put h p x)) (sym same) ∙ object_at-set_self h p (some x) e in
            let same_object : x ≡ o2 = cc in
            ap (get_elem? (l ++ p ∷ [])) (sym (ap (λ (y : Object). y.header.gc_index) same_object))
            ∙ get_elem?-append_length l p []
            ∙ ap some same
        | inr ne ↦
            let old = r.listed q o2 (sym (object_at-set_ne h p q (some x) ne) ∙ e2) t in
            get_elem?-append_left l (p ∷ []) o2.header.gc_index
              (get_elem?-lt-length l o2.header.gc_index old)
            ∙ old
      ];
    }

is_marked-put :
    (h : Heap) (p q : ℕ) (o x : Object)
    → object_at h p ≡ some o
    → ((r : ℕ) → is_marked h r ≡ false)
    → x.header.gc_marked ≡ o.header.gc_marked
    → is_marked (put h p x) q ≡ false
is_marked-put h p q o x e clean same_mark = elim (eq-cases p q) [
  | inl same ↦
      is_marked-some (put h p x) q
        (ap (object_at (put h p x)) (sym same) ∙ object_at-set_self h p (some x) e)
      ∙ same_mark
      ∙ sym (is_marked-some h p e)
      ∙ clean p
  | inr ne ↦
      ap (λ (c : Option Object). elim c [ none ↦ false | some r ↦ r.header.gc_marked ])
        (object_at-set_ne h p q (some x) ne)
      ∙ clean q
]

pub track-at :
    (l : Layout) (grows : Bool) (p : ℕ) (type : TrackedType) (m : Memory) (c : Option Object)
    → object_at m.objects p ≡ c
    → track l grows p type m ≡ elim c [ none ↦ m | some o ↦ track_object l grows p type o m ]
unfolding track
track-at l grows p type m c e =
    ap (λ (r : Option Object). elim r [ none ↦ m | some o ↦ track_object l grows p type o m ]) e

pub track_object-some :
    (l : Layout) (p : ℕ) (type : TrackedType) (o : Object) (m : Memory)
    → (not m.gc.enabled || o.header.gc_tracked) ≡ false
    → track_object l true p type o m ≡ record {
      objects =
          put m.objects p (register (estimate l type o.payload) (length m.gc.tracked_objects) o);
      gc = count_allocation p (estimate l type o.payload) m.gc;
    }
unfolding track_object
track_object-some l p type o m accepted = rw accepted

track_object-IsIdle :
    (l : Layout) (grows : Bool) (p : ℕ) (type : TrackedType) (o : Object) (m : Memory)
    → IsIdle m
    → object_at m.objects p ≡ some o
    → IsIdle (track_object l grows p type o m)
unfolding track_object count_allocation
track_object-IsIdle l grows p type o m idle e =
    let est = estimate l type o.payload in
    let index = length m.gc.tracked_objects in
    elim (Bool-cases (not m.gc.enabled || o.header.gc_tracked)) [
      | inl refused ↦ rw refused idle
      | inr accepted ↦
          let free : o.header.gc_tracked ≡ false = ground arith in
          elim (Bool-cases grows) [
            | inl true_grows ↦
                rw (accepted, true_grows)
                  (record {
                    registry =
                        IsRegistry-register m.objects m.gc.tracked_objects est p o idle.registry e
                          free;
                    clean =
                        λ q. is_marked-put m.objects p q o (register est index o) e idle.clean refl;
                    empty = idle.empty;
                  })
            | inr false_grows ↦
                rw (accepted, false_grows)
                  (record {
                    registry =
                        IsRegistry-put m.objects m.gc.tracked_objects p o (drop_entry est index o)
                          idle.registry e free free;
                    clean = λ q.
                        is_marked-put m.objects p q o (drop_entry est index o) e idle.clean refl;
                    empty = idle.empty;
                  })
          ]
    ]

-- `track` keeps the registry and the headers in agreement, also where it does nothing and where the
-- registry cannot grow.
pub track-IsIdle :
    (l : Layout) (grows : Bool) (p : ℕ) (type : TrackedType) (m : Memory)
    → IsIdle m
    → IsIdle (track l grows p type m)
track-IsIdle l grows p type m idle = elim (Option-cases (object_at m.objects p)) [
  | inl missed ↦ subst IsIdle (sym (track-at l grows p type m none missed)) idle
  | inr (o, e) ↦
      subst IsIdle (sym (track-at l grows p type m (some o) e))
        (track_object-IsIdle l grows p type o m idle e)
]
