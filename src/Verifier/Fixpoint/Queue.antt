-- ===== src/Verifier/Fixpoint/Queue.antt =====
-- bytecode_verify.h: the queue and the table of heights of `verify_stack_flow`.
use nari.Prelude.{
  ℕ, zero, suc, ◌<◌, ◌≡◌, refl, ap, ◌≢◌, ◌⊎◌, inl, inr, arith, List, [], ◌∷◌, ◌++◌, Option, some,
  none, length, length-replicate, set, get_elem?-set_self, get_elem?-set_ne, replicate,
}
use nari.Verifier.Flow.{known_height}

abbrev pub InQueue : ℕ → List ℕ → Type 0
InQueue k [] = ⊥
InQueue k (x ∷ xs) = (k ≡ x) ⊎ InQueue k xs

pub InQueue-append : (k : ℕ) (xs ys : List ℕ) → InQueue k xs → InQueue k (xs ++ ys)
InQueue-append k [] ys q = absurd q
InQueue-append k (x ∷ xs) ys (inl e) = inl e
InQueue-append k (x ∷ xs) ys (inr q) = inr (InQueue-append k xs ys q)

pub InQueue-last : (k : ℕ) (xs : List ℕ) → InQueue k (xs ++ k ∷ [])
InQueue-last k [] = inl refl
InQueue-last k (x ∷ xs) = inr (InQueue-last k xs)

-- The instructions that have no height yet.
abbrev pub unknown : List (Option ℕ) → ℕ
unknown [] = 0
unknown (none ∷ hs) = suc (unknown hs)
unknown (some h ∷ hs) = unknown hs

pub unknown-set :
    (hs : List (Option ℕ)) (k h : ℕ)
    → k < length hs
    → known_height hs k ≡ none
    → suc (unknown (set hs k (some h))) ≡ unknown hs
unknown-set [] k h l e = absurd (omega arith)
unknown-set (none ∷ hs) zero h l e = refl
unknown-set (some x ∷ hs) zero h l e = absurd (cc)
unknown-set (none ∷ hs) (suc k) h l e = ap suc (unknown-set hs k h (omega arith) e)
unknown-set (some x ∷ hs) (suc k) h l e = unknown-set hs k h (omega arith) e

pub unknown-replicate : (n : ℕ) → unknown (replicate n none) ≡ n
unknown-replicate zero = refl
unknown-replicate (suc n) = ap suc (unknown-replicate n)

pub known_height-replicate : (n k : ℕ) → known_height (replicate n none) k ≡ none
known_height-replicate zero k = refl
known_height-replicate (suc n) zero = refl
known_height-replicate (suc n) (suc k) = known_height-replicate n k

pub known_height-set_self :
    (hs : List (Option ℕ)) (k h : ℕ) → k < length hs → known_height (set hs k (some h)) k ≡ some h
known_height-set_self hs k h l = rw (get_elem?-set_self hs k (some h) l)

pub known_height-set_ne :
    (hs : List (Option ℕ)) (k j h : ℕ)
    → k ≢ j
    → known_height (set hs k (some h)) j ≡ known_height hs j
known_height-set_ne hs k j h ne = rw (get_elem?-set_ne hs k j (some h) ne)

pub length-unknowns : (n : ℕ) → length {A = Option ℕ} (replicate n none) ≡ n
length-unknowns n = length-replicate n none
