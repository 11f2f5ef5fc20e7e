-- ===== src/Gc/Scan.antt =====
-- gc.cpp: the loop of `mark_value`, round by round, and over the roots.
use nari.Prelude.{
  ℕ, zero, suc, ◌+◌, ◌<◌, ◌≡◌, refl, sym, ap, ◌∙◌, subst, ◌⊎◌, inl, inr, arith, List, [], ◌∷◌,
  Option, none, some, length, All, Member, ◌>>=◌, List-cases,
}
use nari.Gc.Heap.{Value, none_value, scalar, heap, Object, Heap, object_at}
use nari.Gc.Cells.{Kept, Kept-trans, Kept-refl, Kept-is_marked, unmarked, unmarked-le}
use nari.Gc.Mark.{Marking, visit, mark_loop, mark_value, mark_roots}
use nari.Gc.Marking.{IsMarked, IsMarkedValue, Points, Pushed, All-marked-Kept, IsMarkedValue-Kept}
use nari.Gc.Children.{children, AreEntered, AreEntered-Pushed, Marks}
use nari.Gc.Visits.{push-Marks, visit-Marks}

abbrev pub popped : List ℕ → Marking → Marking
popped rest m = record {
  objects = m.objects;
  mark_stack = rest;
  marked_closure_environments = m.marked_closure_environments;
}

pub All-Points :
    (P : ℕ → Type 0) (vs : List Value)
    → ((p : ℕ) → Member (heap (some p)) vs → P p)
    → All (Points P) vs
All-Points P [] f = tt
All-Points P (none_value ∷ vs) f = (tt, All-Points P vs (λ p h. f p (inr h)))
All-Points P (scalar bits ∷ vs) f = (tt, All-Points P vs (λ p h. f p (inr h)))
All-Points P (heap none ∷ vs) f = (tt, All-Points P vs (λ p h. f p (inr h)))
All-Points P (heap (some p) ∷ vs) f = (f p (inl refl), All-Points P vs (λ p h. f p (inr h)))

pub All-at {ℓ} : {A : Type 0} (P : A → Type ℓ) (xs : List A) (a : A) → All P xs → Member a xs → P a
All-at P [] a h m = absurd m
All-at P (x ∷ xs) a h (inl e) = subst P (sym e) h.0
All-at P (x ∷ xs) a h (inr m) = All-at P xs a h.1 m

member_some :
    {v w : Value} (roots : List (Option Value))
    → Member w (v ∷ [])
    → Member (some w) (some v ∷ roots)
member_some roots (inl e) = inl (ap some e)
member_some roots (inr h) = absurd h

-- The target of a root, if there is one, bears a mark.
abbrev pub IsMarkedRoot : Marking → Option Value → Type 0
IsMarkedRoot m none = Unit
IsMarkedRoot m (some v) = IsMarkedValue m v

pub IsMarkedRoot-Kept :
    (m n : Marking) (r : Option Value)
    → Kept m.objects n.objects
    → IsMarkedRoot m r
    → IsMarkedRoot n r
IsMarkedRoot-Kept m n none kept h = tt
IsMarkedRoot-Kept m n (some v) kept h = IsMarkedValue-Kept m n v kept h

module _ (environments : List (List Value)) (base : Heap) (P : ℕ → Type 0) where
  -- Between the rounds of the loop: what has a mark is in `P`, and waits on the worklist or has only
  -- children with marks.
  pub record IsScanned (m : Marking) : Type 0 where
    pub kept : Kept base m.objects
    pub entered : AreEntered environments m
    pub sound : (q : ℕ) → IsMarked m q → P q
    pub stacked : (q : ℕ) → Member q m.mark_stack → IsMarked m q
    pub scanned :
        (q : ℕ) (o : Object)
        → IsMarked m q
        → object_at base q ≡ some o
        → Member q m.mark_stack ⊎ All (IsMarkedValue m) (children environments o.payload)

  -- A mark phase that has come to its end.
  pub record Scan (m : Marking) (run : Option Marking) : Type 0 where
    pub after : Marking
    pub runs : run ≡ some after
    pub scanned : IsScanned after
    pub over : after.mark_stack ≡ []
    pub kept : Kept m.objects after.objects

  module _ (live : (q : ℕ) → P q → (o : Object) × (object_at base q ≡ some o))
      (closed : (q : ℕ) (o : Object)
        → P q
        → object_at base q ≡ some o
        → All (Points P) (children environments o.payload)) where
    pub IsScanned-Pushed :
        (m n : Marking)
        → Kept base m.objects
        → AreEntered environments m
        → ((q : ℕ) → IsMarked m q → P q)
        → ((q : ℕ) → Member q m.mark_stack → IsMarked m q)
        → Pushed environments P m n
        → ((q : ℕ) (o : Object)
            → IsMarked m q
            → object_at base q ≡ some o
            → Member q n.mark_stack ⊎ All (IsMarkedValue n) (children environments o.payload))
        → IsScanned n
    IsScanned-Pushed m n kept entered sound stacked pushed old = record {
      kept = Kept-trans base m.objects n.objects kept pushed.kept;
      entered = AreEntered-Pushed environments P m n pushed entered;
      sound = λ q h. elim (pushed.fresh q h) [ inl before ↦ sound q before | inr (on, new) ↦ new ];
      stacked = λ q h. elim (pushed.stacked q h) [
        | inl before ↦ Kept-is_marked m.objects n.objects q pushed.kept (stacked q before)
        | inr new ↦ new
      ];
      scanned = λ q o h at_q. elim (pushed.fresh q h) [
        | inl before ↦ old q o before at_q
        | inr (on, new) ↦ inl on
      ];
    }

    -- A round takes the first object off the worklist and pushes its children.
    IsScanned-visit :
        (m : Marking) (p : ℕ) (rest : List ℕ) (o : Object)
        → IsScanned m
        → m.mark_stack ≡ p ∷ rest
        → object_at base p ≡ some o
        → (step : Marks environments P
            (popped rest m)
            (visit environments o.payload (popped rest m))
            (children environments o.payload))
        → IsScanned step.after
    IsScanned-visit m p rest o s top at_p step =
        let n = step.after in
        IsScanned-Pushed (popped rest m) n s.kept s.entered s.sound
          (λ q h. s.stacked q (subst (Member q) (sym top) (inr h))) step.pushed
          (λ q r h at_q. elim (s.scanned q r h at_q) [
            | inl on ↦ elim (subst (Member q) top on) [
              | inl same ↦
                  let same_object : o ≡ r = cc in
                  inr (
                    subst (λ (x : Object). All (IsMarkedValue n) (children environments x.payload))
                      same_object step.marked)
              | inr behind ↦ inl (step.pushed.stays q behind)
            ]
            | inr all ↦
                inr (All-marked-Kept m n (children environments r.payload) step.pushed.kept all)
          ])

    pub mark_loop-Scan :
        (fuel : ℕ) (m : Marking)
        → IsScanned m
        → unmarked m.objects + length m.mark_stack < fuel
        → Scan m (mark_loop environments fuel m)
    unfolding mark_loop
    mark_loop-Scan zero m s less = absurd (omega arith)
    mark_loop-Scan (suc fuel) m s less = elim (List-cases m.mark_stack) [
      | inl over ↦ record {
        after = m;
        runs = rw over;
        scanned = s;
        over = over;
        kept = Kept-refl m.objects;
      }
      | inr (p, rest, top) ↦
          let at_p = s.sound p (s.stacked p (subst (Member p) (sym top) (inl refl))) in
          let (o, at_base) = live p at_p in
          let (b, here, up) = s.kept.here p o at_base in
          let step =
            visit-Marks environments base P live o.payload (popped rest m) s.kept s.entered
              (closed p o at_p at_base) in
          let next = IsScanned-visit m p rest o s top at_base step in
          let size : length m.mark_stack ≡ suc (length rest) = ap length top in
          let later = mark_loop-Scan fuel step.after next (omega (arith, step.pushed.measure)) in
          record {
            after = later.after;
            runs =
                rw (top, here) (ap (λ r. r >>= mark_loop environments fuel) step.runs ∙ later.runs);
            scanned = later.scanned;
            over = later.over;
            kept =
                Kept-trans m.objects step.after.objects later.after.objects step.pushed.kept
                  later.kept;
          }
    ]

    -- A root is marked, with all that it leads to.
    pub mark_value-Scan :
        (v : Value) (m : Marking)
        → IsScanned m
        → m.mark_stack ≡ []
        → Points P v
        → (scan : Scan m (mark_value environments v m)) × IsMarkedValue scan.after v
    unfolding mark_value
    mark_value-Scan v m s over at_v =
        let first = push-Marks environments base P live v m s.kept at_v in
        let n = first.after in
        let next =
          IsScanned-Pushed m n s.kept s.entered s.sound s.stacked first.pushed (λ q o h at_q.
            elim (s.scanned q o h at_q) [
              | inl on ↦ inl (first.pushed.stays q on)
              | inr all ↦
                  inr (All-marked-Kept m n (children environments o.payload) first.pushed.kept all)
            ]) in
        let empty : length m.mark_stack ≡ 0 = ap length over in
        let later =
          mark_loop-Scan (suc (length m.objects)) n next
            (omega (arith, first.pushed.measure, unmarked-le m.objects)) in
        (
          record {
            after = later.after;
            runs =
                ap (λ r. r >>= mark_loop environments (suc (length m.objects))) first.runs
                ∙ later.runs;
            scanned = later.scanned;
            over = later.over;
            kept = Kept-trans m.objects n.objects later.after.objects first.pushed.kept later.kept;
          },
          IsMarkedValue-Kept n later.after v later.kept first.marked.0,
        )

    pub mark_roots-Scan :
        (roots : List (Option Value)) (m : Marking)
        → IsScanned m
        → m.mark_stack ≡ []
        → ((p : ℕ) → Member (some (heap (some p))) roots → P p)
        → (scan : Scan m (mark_roots environments roots m)) × All (IsMarkedRoot scan.after) roots
    unfolding mark_roots
    mark_roots-Scan [] m s over at_roots = (
      record { after = m; runs = refl; scanned = s; over = over; kept = Kept-refl m.objects },
      tt,
    )
    mark_roots-Scan (none ∷ roots) m s over at_roots =
        let (scan, all) = mark_roots-Scan roots m s over (λ p h. at_roots p (inr h)) in
        (scan, (tt, all))
    mark_roots-Scan (some v ∷ roots) m s over at_roots =
        let at_v : Points P v =
          (All-Points P (v ∷ []) (λ p h. at_roots p (member_some roots h))).0 in
        let (first, marked) = mark_value-Scan v m s over at_v in
        let (later, all) =
          mark_roots-Scan roots first.after first.scanned first.over (λ p h. at_roots p (inr h)) in
        (
          record {
            after = later.after;
            runs = ap (λ r. r >>= mark_roots environments roots) first.runs ∙ later.runs;
            scanned = later.scanned;
            over = later.over;
            kept =
                Kept-trans m.objects first.after.objects later.after.objects first.kept later.kept;
          },
          (IsMarkedValue-Kept first.after later.after v later.kept marked, all),
        )
