-- ===== src/Gc/Shuffle.antt =====
-- gc.cpp: the swaps of `sweep` keep the entries of the registry.
use nari.Prelude.{
  ℕ, zero, suc, ◌<◌, ◌≡◌, refl, sym, ap, ◌∙◌, inl, inr, arith, List, [], ◌∷◌, some, length,
  length-set, get_elem?, get_or, set, get_elem?-set_self, get_elem?-set_ne, ◌==◌, if◌then◌else◌,
}
use nari.Gc.Cells.{eq-cases}
use nari.Gc.Sweep.{swap}

-- Entry `i` of the list is `p`.
abbrev pub At : List ℕ → ℕ → ℕ → Type 0
At l i p = get_elem? l i ≡ some p

abbrev pub IsDistinct : List ℕ → Type 0
IsDistinct l = (i j p : ℕ) → At l i p → At l j p → i ≡ j

-- The same entries, at other places.
pub record IsShuffle (l k : List ℕ) : Type 0 where
  pub to : (i p : ℕ) → At l i p → (j : ℕ) × At k j p
  pub from : (i p : ℕ) → At k i p → (j : ℕ) × At l j p
  pub distinct : IsDistinct l → IsDistinct k
  pub size : length k ≡ length l

pub IsShuffle-refl : (l : List ℕ) → IsShuffle l l
IsShuffle-refl l = record {
  to = λ i p h. (i, h);
  from = λ i p h. (i, h);
  distinct = λ d. d;
  size = refl;
}

pub IsShuffle-trans : (l k m : List ℕ) → IsShuffle l k → IsShuffle k m → IsShuffle l m
IsShuffle-trans l k m first second = record {
  to = λ i p h. let (j, at_k) = first.to i p h in second.to j p at_k;
  from = λ i p h. let (j, at_k) = second.from i p h in first.from j p at_k;
  distinct = λ d. second.distinct (first.distinct d);
  size = second.size ∙ first.size;
}

pub At-get_or : (l : List ℕ) (i : ℕ) → i < length l → At l i (get_or l i 0)
At-get_or [] i less = absurd (omega arith)
At-get_or (x ∷ l) zero less = refl
At-get_or (x ∷ l) (suc i) less = At-get_or l i (omega arith)

pub get_or-At : (l : List ℕ) (i p : ℕ) → At l i p → get_or l i 0 ≡ p
get_or-At [] i p h = absurd (cc)
get_or-At (x ∷ l) zero p h = cc
get_or-At (x ∷ l) (suc i) p h = get_or-At l i p h

-- The index that a swap brings to `k`.
abbrev transpose : ℕ → ℕ → ℕ → ℕ
transpose i j k = if k == j then i else if k == i then j else k

transpose_twice : (i j k : ℕ) → transpose i j (transpose i j k) ≡ k
transpose_twice i j k = ground arith

transpose_lt : (i j k n : ℕ) → i < n → j < n → k < n → transpose i j k < n
transpose_lt i j k n i_less j_less less = ground arith

get_elem?-swap :
    (i j k : ℕ) (l : List ℕ)
    → i < length l
    → j < length l
    → get_elem? (swap i j l) k ≡ get_elem? l (transpose i j k)
get_elem?-swap i j k l i_less j_less =
    let once = set l i (get_or l j 0) in
    elim (eq-cases j k) [
      | inl same ↦
          let t : transpose i j k ≡ i = ground arith in
          let j_once : j < length once = omega (arith, length-set l i (get_or l j 0)) in
          ap (get_elem? (swap i j l)) (sym same)
          ∙ get_elem?-set_self once j (get_or l i 0) j_once
          ∙ sym (At-get_or l i i_less)
          ∙ ap (get_elem? l) (sym t)
      | inr ne ↦ elim (eq-cases i k) [
        | inl same ↦
            let t : transpose i j k ≡ j = ground arith in
            get_elem?-set_ne once j k (get_or l i 0) ne
            ∙ ap (get_elem? once) (sym same)
            ∙ get_elem?-set_self l i (get_or l j 0) i_less
            ∙ sym (At-get_or l j j_less)
            ∙ ap (get_elem? l) (sym t)
        | inr other ↦
            let t : transpose i j k ≡ k = ground arith in
            get_elem?-set_ne once j k (get_or l i 0) ne
            ∙ get_elem?-set_ne l i k (get_or l j 0) other
            ∙ ap (get_elem? l) (sym t)
      ]
    ]

pub IsShuffle-swap : (i j : ℕ) (l : List ℕ) → i < length l → j < length l → IsShuffle l (swap i j l)
IsShuffle-swap i j l i_less j_less =
    let moved : (k : ℕ) → get_elem? (swap i j l) k ≡ get_elem? l (transpose i j k) =
      λ k. get_elem?-swap i j k l i_less j_less in
    record {
      to = λ k p h.
          (transpose i j k, moved (transpose i j k) ∙ ap (get_elem? l) (transpose_twice i j k) ∙ h);
      from = λ k p h. (transpose i j k, sym (moved k) ∙ h);
      distinct = λ d a b p at_a at_b.
          let same =
            d (transpose i j a) (transpose i j b) p (sym (moved a) ∙ at_a) (sym (moved b) ∙ at_b) in
          sym (transpose_twice i j a) ∙ ap (transpose i j) same ∙ transpose_twice i j b;
      size = length-set (set l i (get_or l j 0)) j (get_or l i 0) ∙ length-set l i (get_or l j 0);
    }

-- The entry of a swapped list.
pub get_or-swap :
    (i j k : ℕ) (l : List ℕ)
    → i < length l
    → j < length l
    → k < length l
    → get_or (swap i j l) k 0 ≡ get_or l (if k == j then i else if k == i then j else k) 0
get_or-swap i j k l i_less j_less less = get_or-At (swap i j l) k (get_or l (transpose i j k) 0) (
    get_elem?-swap i j k l i_less j_less
    ∙ At-get_or l (transpose i j k) (transpose_lt i j k (length l) i_less j_less less))
