-- ===== src/Lexer/Munch.antt =====
-- parser/lexer.cpp: the order of the operators makes `tokenize` take the longest one.
use nari.Prelude.{
  ◌≤◌, ◌≡◌, refl, arith, Bool, true, List, [], ◌∷◌, some, All, length, not, ◌&&◌, ◌||◌, leb, leb→le,
  Bool-cases, inl, inr, subst,
}
use nari.Bytecode.Chunk.{Bytes}
use nari.Lexer.Operators.{Operator, operators, starts_with, first_match}

-- No operator of the list is a proper beginning of a later one.
abbrev comes_before : Operator → List Operator → Bool
comes_before o [] = true
comes_before o (x ∷ os) =
    (not (starts_with o.text x.text) || leb (length x.text) (length o.text)) && comes_before o os

abbrev in_order : List Operator → Bool
in_order [] = true
in_order (o ∷ os) = comes_before o os && in_order os

operators-in_order : in_order operators ≡ true
unfolding operators
operators-in_order = refl

-- Of two beginnings of one text the shorter is a beginning of the longer.
starts_with_shorter :
    (s t rest : Bytes)
    → starts_with s rest ≡ true
    → starts_with t rest ≡ true
    → length s ≤ length t
    → starts_with s t ≡ true
starts_with_shorter [] t rest hs ht l = refl
starts_with_shorter (a ∷ s) [] rest hs ht l = absurd (omega arith)
starts_with_shorter (a ∷ s) (b ∷ t) [] hs ht l = absurd (cc)
starts_with_shorter (a ∷ s) (b ∷ t) (c ∷ rest) hs ht l =
    let more = starts_with_shorter s t rest (ground arith) (ground arith) (omega arith) in
    ground (arith, more)

-- No longer operator of the list begins the text.
abbrev pub IsLongest : Operator → Bytes → Operator → Type 0
IsLongest o rest x = starts_with x.text rest ≡ true → length x.text ≤ length o.text

comes_before-IsLongest :
    (o : Operator) (rest : Bytes) (os : List Operator)
    → starts_with o.text rest ≡ true
    → comes_before o os ≡ true
    → All (IsLongest o rest) os
comes_before-IsLongest o rest [] m h = tt
comes_before-IsLongest o rest (x ∷ os) m h =
    (longest, comes_before-IsLongest o rest os m (ground arith))
  where
    longest : IsLongest o rest x
    longest mx = elim (Bool-cases (leb (length x.text) (length o.text))) [
      | inl le ↦ leb→le _ _ le
      | inr gt ↦
          let begins = starts_with_shorter o.text x.text rest m mx (ground arith) in
          absurd (ground (arith, begins))
    ]

first_match-IsLongest_of :
    (os : List Operator) (rest : Bytes) (o : Operator)
    → in_order os ≡ true
    → first_match os rest ≡ some o
    → (starts_with o.text rest ≡ true) × All (IsLongest o rest) os
unfolding first_match
first_match-IsLongest_of [] rest o h e = absurd (cc)
first_match-IsLongest_of (x ∷ os) rest o h e = elim (Bool-cases (starts_with x.text rest)) [
  | inl found ↦
      let same : some x ≡ some o = rw found at e in
      let is_o : x ≡ o = cc in
      subst (λ (z : Operator). (starts_with z.text rest ≡ true) × All (IsLongest z rest) (x ∷ os))
        is_o (found, ((λ _. omega arith), comes_before-IsLongest x rest os found (ground arith)))
  | inr missed ↦
      let (found, longest) = first_match-IsLongest_of os rest o (ground arith) (rw missed at e) in
      (found, ((λ m. absurd (cc)), longest))
]

-- The operator that is taken begins the source at hand, and so does no longer operator.
pub first_match-IsLongest :
    (rest : Bytes) (o : Operator)
    → first_match operators rest ≡ some o
    → (starts_with o.text rest ≡ true) × All (IsLongest o rest) operators
first_match-IsLongest rest o e = first_match-IsLongest_of operators rest o operators-in_order e
