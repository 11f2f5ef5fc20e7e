-- ===== src/Gc/Swept.antt =====
-- gc.cpp: what `sweep` makes of each object.
use nari.Prelude.{
  ℕ, zero, suc, ◌+◌, ◌-◌, ◌<◌, ◌≡◌, refl, sym, ap, ◌∙◌, inl, inr, arith, Bool, true, false, List,
  [], ◌∷◌, none, some, take, drop, get_elem?, get_elem?-lt-length, Bool-cases, ltb, ltb→lt, ltb→le,
  if◌then◌else◌,
}
use nari.Gc.Heap.{Object, Heap, object_at, is_marked}
use nari.Gc.Shuffle.{At, IsDistinct, get_or-At}
use nari.Gc.Partition.{IsPartition}
use nari.Gc.Loops.{
  Missing, kept_object, keep_all-Missing, keep_all-At, clear_all-Missing, clear_all-At,
  delete_all-Missing, delete_all-At, is_deleted-cleared, Member-At,
}
use nari.Gc.Sweep.{marked_at, keep_all, clear_all, clear_object, delete_all, is_deleted}

pub get_elem?-take : (n : ℕ) (l : List ℕ) (i : ℕ) → i < n → get_elem? (take n l) i ≡ get_elem? l i
get_elem?-take zero l i h = absurd (omega arith)
get_elem?-take (suc n) [] i h = refl
get_elem?-take (suc n) (x ∷ l) zero h = refl
get_elem?-take (suc n) (x ∷ l) (suc i) h = get_elem?-take n l i (omega arith)

pub At-take_lt : (n : ℕ) (l : List ℕ) (i p : ℕ) → At (take n l) i p → i < n
At-take_lt zero l i p h = absurd (cc)
At-take_lt (suc n) [] i p h = absurd (cc)
At-take_lt (suc n) (x ∷ l) zero p h = omega arith
At-take_lt (suc n) (x ∷ l) (suc i) p h = let less = At-take_lt n l i p h in omega arith

pub get_elem?-drop : (n : ℕ) (l : List ℕ) (i : ℕ) → get_elem? (drop n l) i ≡ get_elem? l (n + i)
get_elem?-drop zero l i = ap (get_elem? l) (omega arith)
get_elem?-drop (suc n) [] i = refl
get_elem?-drop (suc n) (x ∷ l) i =
    get_elem?-drop n l i
    ∙ ap (get_elem? (x ∷ l)) (let e : suc (n + i) ≡ suc n + i = omega arith in e)

-- The loops of `sweep` behind the split of the registry into `l`, `n` objects to keep.
abbrev pub swept : Heap → List ℕ → ℕ → ℕ → Heap
swept h l n usage = delete_all (drop n l) (clear_all (drop n l) (keep_all 0 (take n l) h) usage).0

-- The heap `h` with its registry, and the registry `l` as the loop leaves it, `n` objects to keep.
module _ (h : Heap) (tracked l : List ℕ) (n : ℕ) (part : IsPartition h tracked (l, n))
    (d : IsDistinct tracked) where
  mark-At : (j q : ℕ) (b : Bool) → At l j q → is_marked h q ≡ b → marked_at h l j ≡ b
  mark-At j q b at m = ap (is_marked h) (get_or-At l j q at) ∙ m

  pub live-At : (i q : ℕ) → At tracked i q → is_marked h q ≡ true → (j : ℕ) × At (take n l) j q
  live-At i q at m =
      let (j, at_l) = part.shuffle.to i q at in
      elim (Bool-cases (ltb j n)) [
        | inl less ↦ (j, get_elem?-take n l j (ltb→lt j n less) ∙ at_l)
        | inr le ↦
            let free = part.split.back j (ltb→le j n le) (get_elem?-lt-length l j at_l) in
            absurd (cc (sym (mark-At j q true at_l m) ∙ free))
      ]

  pub garbage-At : (i q : ℕ) → At tracked i q → is_marked h q ≡ false → (j : ℕ) × At (drop n l) j q
  garbage-At i q at m =
      let (j, at_l) = part.shuffle.to i q at in
      elim (Bool-cases (ltb j n)) [
        | inl less ↦
            let marked = part.split.front j (ltb→lt j n less) in
            absurd (cc (sym (mark-At j q false at_l m) ∙ marked))
        | inr le ↦
            let low = ltb→le j n le in
            let e : n + (j - n) ≡ j = omega arith in
            (j - n, get_elem?-drop n l (j - n) ∙ ap (get_elem? l) e ∙ at_l)
      ]

  pub At-live : (j q : ℕ) → At (take n l) j q → ((i : ℕ) × At tracked i q) × (is_marked h q ≡ true)
  At-live j q at =
      let less = At-take_lt n l j q at in
      let at_l : At l j q = sym (get_elem?-take n l j less) ∙ at in
      (
        part.shuffle.from j q at_l,
        sym (ap (is_marked h) (get_or-At l j q at_l)) ∙ part.split.front j less,
      )

  pub At-garbage :
      (j q : ℕ) → At (drop n l) j q → ((i : ℕ) × At tracked i q) × (is_marked h q ≡ false)
  At-garbage j q at =
      let at_l : At l (n + j) q = sym (get_elem?-drop n l j) ∙ at in
      (
        part.shuffle.from (n + j) q at_l,
        sym (ap (is_marked h) (get_or-At l (n + j) q at_l))
            ∙ part.split.back (n + j) (omega arith) (get_elem?-lt-length l (n + j) at_l),
      )

  pub IsDistinct-live : IsDistinct (take n l)
  IsDistinct-live i j p a b =
      part.shuffle.distinct d i j p (sym (get_elem?-take n l i (At-take_lt n l i p a)) ∙ a)
        (sym (get_elem?-take n l j (At-take_lt n l j p b)) ∙ b)

  IsDistinct-garbage : IsDistinct (drop n l)
  IsDistinct-garbage i j p a b =
      let e =
        part.shuffle.distinct d (n + i) (n + j) p (sym (get_elem?-drop n l i) ∙ a)
          (sym (get_elem?-drop n l j) ∙ b) in
      omega arith

  Missing-live : (q : ℕ) → is_marked h q ≡ false → Missing q (take n l)
  Missing-live q m on =
      let (j, at) = Member-At (take n l) q on in
      let (there, marked) = At-live j q at in absurd (cc (sym m ∙ marked))

  Missing-garbage : (q : ℕ) → is_marked h q ≡ true → Missing q (drop n l)
  Missing-garbage q m on =
      let (j, at) = Member-At (drop n l) q on in
      let (there, free) = At-garbage j q at in absurd (cc (sym m ∙ free))

  -- A marked object of the registry stays, with its new index and without its mark.
  pub swept-live :
      (usage i q : ℕ) (o : Object)
      → At tracked i q
      → is_marked h q ≡ true
      → object_at h q ≡ some o
      → (j : ℕ) × At (take n l) j q × (object_at (swept h l n usage) q ≡ some (kept_object j o))
  swept-live usage i q o at m e =
      let (j, at_live) = live-At i q at m in
      let out = Missing-garbage q m in
      let zero_add : 0 + j ≡ j = omega arith in
      (
        j,
        at_live,
        delete_all-Missing (drop n l) (clear_all (drop n l) (keep_all 0 (take n l) h) usage).0 q out
            ∙ clear_all-Missing (drop n l) (keep_all 0 (take n l) h) usage q out
            ∙ keep_all-At 0 (take n l) h j q o IsDistinct-live at_live e
            ∙ ap (λ i. some (kept_object i o)) zero_add,
      )

  -- An object of the registry without a mark goes, unless there is no `delete` for it.
  pub swept-garbage :
      (usage i q : ℕ) (o : Object)
      → At tracked i q
      → is_marked h q ≡ false
      → object_at h q ≡ some o
      → object_at (swept h l n usage) q
        ≡ (if is_deleted o.payload then none else some (clear_object o))
  swept-garbage usage i q o at m e =
      let (j, at_garbage) = garbage-At i q at m in
      let cleared_at =
        clear_all-At (drop n l) (keep_all 0 (take n l) h) usage j q o IsDistinct-garbage at_garbage
          (keep_all-Missing 0 (take n l) h q (Missing-live q m) ∙ e) in
      delete_all-At (drop n l) (clear_all (drop n l) (keep_all 0 (take n l) h) usage).0 j q
        (clear_object o) IsDistinct-garbage at_garbage cleared_at
      ∙ ap (λ (b : Bool). if b then none else some (clear_object o)) (is_deleted-cleared o.payload)

  -- An object that is not in the registry is left alone.
  pub swept-other :
      (usage q : ℕ)
      → ((i : ℕ) → At tracked i q → ⊥)
      → object_at (swept h l n usage) q ≡ object_at h q
  swept-other usage q out =
      let missing_live : Missing q (take n l) = λ on.
        let (j, at) = Member-At (take n l) q on in
        let ((i, there), m) = At-live j q at in out i there in
      let missing_garbage : Missing q (drop n l) = λ on.
        let (j, at) = Member-At (drop n l) q on in
        let ((i, there), m) = At-garbage j q at in out i there in
      delete_all-Missing (drop n l) (clear_all (drop n l) (keep_all 0 (take n l) h) usage).0 q
        missing_garbage
      ∙ clear_all-Missing (drop n l) (keep_all 0 (take n l) h) usage q missing_garbage
      ∙ keep_all-Missing 0 (take n l) h q missing_live
