-- ===== src/Gc/Exact.antt =====
-- gc.cpp: the marks that `collect` makes, and reachability.
use nari.Prelude.{ℕ, ◌≡◌, refl, subst, inl, inr, ◌↔◌, false, List, [], Option, some, All, Member}
use nari.Gc.Heap.{Value, heap, Object, Heap, object_at, is_marked}
use nari.Gc.Cells.{Kept, Kept-refl}
use nari.Gc.Mark.{Marking, mark_roots}
use nari.Gc.Marking.{IsMarked, IsMarkedValue, Points}
use nari.Gc.Children.{children}
use nari.Gc.Refers.{Refers, Holds, AreCovered}
use nari.Gc.Fields.{Refers-Member, Member-Refers}
use nari.Gc.Scan.{IsScanned, IsMarkedRoot, mark_roots-Scan, All-Points, All-at}

-- An object is reachable from the roots: a root points to it, or a value in a field of a reachable
-- object does.
pub data Reach (environments : List (List Value)) (base : Heap) (roots : List (Option Value))
    : ℕ → Type 0 where
  root : (p : ℕ) → Member (some (heap (some p))) roots → Reach environments base roots p
  child :
      (q p : ℕ) (o : Object)
      → Reach environments base roots q
      → object_at base q ≡ some o
      → Holds environments o.payload (heap (some p))
      → Reach environments base roots p

abbrev pub start_marking : Heap → Marking
start_marking base = record { objects = base; mark_stack = []; marked_closure_environments = [] }

module _ (environments : List (List Value)) (base : Heap) (roots : List (Option Value)) where
  abbrev pub AreLive : Type 0
  AreLive = (q : ℕ) → Reach environments base roots q → (o : Object) × (object_at base q ≡ some o)

  -- A mark phase that has marked what is reachable, and nothing else.
  pub record IsExact (run : Option Marking) : Type 0 where
    pub after : Marking
    pub runs : run ≡ some after
    pub over : after.mark_stack ≡ []
    pub kept : Kept base after.objects
    pub marks : (q : ℕ) → IsMarked after q ↔ Reach environments base roots q

  reach-IsMarked :
      (m : Marking)
      → IsScanned environments base (Reach environments base roots) m
      → m.mark_stack ≡ []
      → All (IsMarkedRoot m) roots
      → AreLive
      → AreCovered environments base
      → (q : ℕ) → Reach environments base roots q
      → IsMarked m q
  reach-IsMarked m s over all live covered _ (Reach.root q at_root) =
      All-at (IsMarkedRoot m) roots (some (heap (some q))) all at_root
  reach-IsMarked m s over all live covered _ (Reach.child p q o reach at_p at_child) =
      let referred : Refers environments o.payload (heap (some q)) = elim at_child [
        | inl refers ↦ refers
        | inr left_out ↦ covered p o q at_p left_out
      ] in
      elim (s.scanned p o (reach-IsMarked m s over all live covered p reach) at_p) [
        | inl on ↦ absurd (subst (Member p) over on)
        | inr marked ↦
            All-at (IsMarkedValue m) (children environments o.payload) (heap (some q)) marked
              (Refers-Member environments o.payload (heap (some q)) referred)
      ]

  -- Let no object bear a mark, let the fields that the collector leaves out hold no pointer
  -- that the others do not, and let the pointers that can be reached lead to objects. The mark phase ends without a pointer that dangles, with an empty worklist; it changes nothing but marks; and an
  -- object bears a mark if and only if it is reachable from the roots.
  pub mark_roots-IsExact :
      ((q : ℕ) → is_marked base q ≡ false)
      → AreCovered environments base
      → AreLive
      → IsExact (mark_roots environments roots (start_marking base))
  mark_roots-IsExact clean covered live =
      let P = Reach environments base roots in
      let start : IsScanned environments base P (start_marking base) = record {
        kept = Kept-refl base;
        entered = λ e h. absurd h;
        sound = λ q h. absurd (cc (clean q));
        stacked = λ q h. absurd h;
        scanned = λ q o h at_q. absurd (cc (clean q));
      } in
      let closed : (q : ℕ) (o : Object)
          → P q
          → object_at base q ≡ some o
          → All (Points P) (children environments o.payload) =
        λ q o reach at_q. All-Points P (children environments o.payload) (λ p at_child.
          Reach.child q p o reach at_q
            (inl (Member-Refers environments o.payload (heap (some p)) at_child))) in
      let (scan, all) =
        mark_roots-Scan environments base P live closed roots (start_marking base) start refl
          (λ p h. Reach.root p h) in
      record {
        after = scan.after;
        runs = scan.runs;
        over = scan.over;
        kept = scan.kept;
        marks = λ q. (
          scan.scanned.sound q,
          reach-IsMarked scan.after scan.scanned scan.over all live covered q,
        );
      }
