-- ===== src/Bytecode/Patterns.antt =====
-- bytecode.h: the bytes that the patterns of `jit_classify_inline` match, and what is found where one
-- does.
use nari.Prelude.{
  ℕ, zero, suc, ◌+◌, ◌≤◌, ◌<◌, ◌≡◌, ◌⊎◌, refl, All, inl, inr, arith, Bool, true, false, List, [],
  ◌∷◌, Option, none, some, length, drop, get_elem?, get_or, if◌then◌else◌, Option-cases, Bool-cases,
  ◌>>=◌, ◌==◌, ==→eq, is_one_of,
}
use nari.Prelude.Int.{ℤ}
use nari.Bytecode.OpCode
use nari.Bytecode.Chunk.{Bytes, Constant, JitInlineKind}
use nari.Bytecode.Symbolic.{
  argument, captured, constant, binary, Returns, returns, checks, Operator, add, sub, mul, less,
  less_equal, greater, greater_equal, equal, not_equal, Computes, multiplies_by, multiplies,
  adds_to, adds, subtracts,
}
use nari.Bytecode.Inline.{
  InlineClassification, matches, is_return_end, int_constant, two_arg_kind, const_kind, first_found,
}

pub one_byte :
    (code : Bytes) (i j b : ℕ)
    → j ≡ i + 1
    → j ≤ length code
    → get_or code i 0 ≡ b
    → drop i code ≡ b ∷ drop j code
one_byte [] i j b next inside at_i = absurd (omega arith)
one_byte (c ∷ code) zero j b next inside at_i = let e : j ≡ 1 = omega arith in rw (e, ← at_i) refl
one_byte (c ∷ code) (suc i) zero b next inside at_i = absurd (omega arith)
one_byte (c ∷ code) (suc i) (suc j) b next inside at_i =
    one_byte code i j b (omega arith) (omega arith) at_i

pub three_bytes :
    (code : Bytes) (i j a b c : ℕ)
    → j ≡ i + 3
    → j ≤ length code
    → get_or code i 0 ≡ a
    → get_or code (i + 1) 0 ≡ b
    → get_or code (i + 2) 0 ≡ c
    → drop i code ≡ a ∷ b ∷ c ∷ drop j code
three_bytes code i j a b c next inside at_0 at_1 at_2 =
    rw
      (
        one_byte code i (i + 1) a refl (omega arith) at_0,
        one_byte code (i + 1) (i + 2) b (omega arith) (omega arith) at_1,
        one_byte code (i + 2) j c (omega arith) (omega arith) at_2,
      )
      refl

-- A byte that `matches` asks for.
pub matches-at :
    (code : Bytes) (i : ℕ) (bytes : List (Option ℕ)) (j b p : ℕ)
    → matches code i bytes ≡ true
    → get_elem? bytes j ≡ some (some b)
    → p ≡ i + j
    → get_or code p 0 ≡ b
unfolding matches
matches-at code i [] j b p h e at_p = absurd (cc)
matches-at code i (none ∷ bytes) zero b p h e at_p = absurd (cc)
matches-at code i (none ∷ bytes) (suc j) b p h e at_p =
    matches-at code (i + 1) bytes j b p h e (omega arith)
matches-at code i (some x ∷ bytes) zero b p h e at_p =
    let same : x ≡ b = cc in
    let here : p ≡ i = omega arith in rw (here, ← same) (==→eq (get_or code i 0) x (ground arith))
matches-at code i (some x ∷ bytes) (suc j) b p h e at_p =
    matches-at code (i + 1) bytes j b p (ground arith) e (omega arith)

pub is_return_end-Returns :
    (code : Bytes) (i : ℕ) → is_return_end code i ≡ true → Returns (drop i code)
unfolding is_return_end
is_return_end-Returns code i h = elim (Bool-cases (get_or code i 0 == OpCode.op_return)) [
  | inl e ↦
      let at_i = ==→eq (get_or code i 0) OpCode.op_return e in
      rw (one_byte code i (i + 1) OpCode.op_return refl (ground arith) at_i) returns
  | inr e ↦
      let check : get_or code i 0 ≡ OpCode.op_check_type = ground arith in
      let context : get_or code (i + 3) 0 ≡ 1 = ground arith in
      let return : get_or code (i + 4) 0 ≡ OpCode.op_return = ground arith in
      let inside : i + 4 < length code = ground arith in
      rw
        (
          three_bytes code i (i + 3) OpCode.op_check_type _ _ refl (omega arith) check refl refl,
          one_byte code (i + 3) (i + 4) 1 (omega arith) (omega arith) context,
          one_byte code (i + 4) (i + 5) OpCode.op_return (omega arith) (omega arith) return,
        )
        checks
]

-- What is found has the property `P`.
abbrev pub Holds {ℓ} : {A : Type ℓ} → (A → Type 0) → Option A → Type 0
Holds P none = Unit {0}
Holds P (some a) = P a

pub Holds-if {ℓ} :
    {A : Type ℓ} (P : A → Type 0) (b : Bool) (x : Option A)
    → (b ≡ true → Holds P x)
    → Holds P (if b then x else none)
Holds-if P true x then_x = then_x refl
Holds-if P false x then_x = tt

Holds-or {ℓ} :
    {A : Type ℓ} (P : A → Type 0) (b : Bool) (a : A) (x : Option A)
    → (b ≡ true → P a)
    → Holds P x
    → Holds P (if b then some a else x)
Holds-or P true a x then_a else_x = then_a refl
Holds-or P false a x then_a else_x = else_x

pub Holds-bind {ℓ κ} :
    {A : Type ℓ} {B : Type κ} (P : A → Type 0) (Q : B → Type 0) (x : Option A) (f : A → Option B)
    → Holds P x
    → ((a : A) → P a → Holds Q (f a))
    → Holds Q (x >>= f)
Holds-bind P Q none f h next = tt
Holds-bind P Q (some a) f h next = next a h

abbrev pub is_operator : ℕ → Bool
is_operator op = is_one_of op (
    OpCode.op_add ∷ OpCode.op_sub ∷ OpCode.op_mul ∷ OpCode.op_lt ∷ OpCode.op_le ∷ OpCode.op_gt
    ∷ OpCode.op_ge ∷ OpCode.op_eq ∷ OpCode.op_ne ∷ [])

pub two_arg_kind-Operator :
    (op : ℕ) → Holds (λ kind. Operator kind op × (is_operator op ≡ true)) (two_arg_kind op)
unfolding two_arg_kind
two_arg_kind-Operator op =
    Holds-or _ (op == OpCode.op_add) _ _ (λ e. rw (==→eq op OpCode.op_add e) (add, refl))
      (Holds-or _ (op == OpCode.op_sub) _ _ (λ e. rw (==→eq op OpCode.op_sub e) (sub, refl))
        (Holds-or _ (op == OpCode.op_mul) _ _ (λ e. rw (==→eq op OpCode.op_mul e) (mul, refl))
          (Holds-or _ (op == OpCode.op_lt) _ _ (λ e. rw (==→eq op OpCode.op_lt e) (less, refl))
            (Holds-or _ (op == OpCode.op_le) _ _
              (λ e. rw (==→eq op OpCode.op_le e) (less_equal, refl))
              (Holds-or _ (op == OpCode.op_gt) _ _
                (λ e. rw (==→eq op OpCode.op_gt e) (greater, refl))
                (Holds-or _ (op == OpCode.op_ge) _ _
                  (λ e. rw (==→eq op OpCode.op_ge e) (greater_equal, refl))
                  (Holds-or _ (op == OpCode.op_eq) _ _
                    (λ e. rw (==→eq op OpCode.op_eq e) (equal, refl))
                    (Holds-or _ (op == OpCode.op_ne) _ _
                      (λ e. rw (==→eq op OpCode.op_ne e) (not_equal, refl)) (tt)))))))))

pub const_kind-right :
    (op : ℕ) (imm : ℤ)
    → Holds
        (λ kind.
          Computes kind imm (binary op (argument 0) (constant imm)) captured
          × (is_operator op ≡ true))
        (const_kind op)
unfolding const_kind
const_kind-right op imm =
    Holds-or _ (op == OpCode.op_mul) _ _ (λ e. rw (==→eq op OpCode.op_mul e) (multiplies_by, refl))
      (Holds-or _ (op == OpCode.op_add) _ _ (λ e. rw (==→eq op OpCode.op_add e) (adds_to, refl))
        (Holds-or _ (op == OpCode.op_sub) _ _ (λ e. rw (==→eq op OpCode.op_sub e) (subtracts, refl))
          (tt)))

pub const_kind-left :
    (op : ℕ) (imm : ℤ)
    → is_one_of op (OpCode.op_mul ∷ OpCode.op_add ∷ []) ≡ true
    → Holds
        (λ kind.
          Computes kind imm (binary op (constant imm) (argument 0)) captured
          × (is_operator op ≡ true))
        (const_kind op)
unfolding const_kind
const_kind-left op imm h =
    Holds-or _ (op == OpCode.op_mul) _ _ (λ e. rw (==→eq op OpCode.op_mul e) (multiplies, refl))
      (Holds-or _ (op == OpCode.op_add) _ _ (λ e. rw (==→eq op OpCode.op_add e) (adds, refl))
        (Holds-or _ (op == OpCode.op_sub) _ _
          (λ e. absurd (cc (rw (==→eq op OpCode.op_sub e) at h))) tt))

-- Where an operand is an INT constant of the function.
pub int_constant-Holds {ℓ} :
    {A : Type ℓ} (P : A → Type 0) (constants : List Constant) (k : ℕ) (next : ℤ → Option A)
    → ((v : ℤ) → get_elem? constants k ≡ some (Constant.int v) → Holds P (next v))
    → Holds P (int_constant constants k >>= next)
unfolding int_constant
int_constant-Holds P constants k next h = elim (Option-cases (get_elem? constants k)) [
  | inl nothing ↦ rw (nothing, int_constant) tt
  | inr (Constant.none, e) ↦ rw (e, int_constant) tt
  | inr (Constant.int w, e) ↦ rw (e, int_constant) (h w e)
  | inr (Constant.float u, e) ↦ rw (e, int_constant) tt
  | inr (Constant.string i, e) ↦ rw (e, int_constant) tt
  | inr (Constant.function i, e) ↦ rw (e, int_constant) tt
]

pub first_found-Holds :
    (P : InlineClassification → Type 0) (patterns : List (Option InlineClassification))
    → All (Holds P) patterns
    → ((first_found patterns).kind ≡ JitInlineKind.none) ⊎ P (first_found patterns)
unfolding first_found
first_found-Holds P [] h = inl refl
first_found-Holds P (none ∷ patterns) h = first_found-Holds P patterns h.1
first_found-Holds P (some c ∷ patterns) h = inr h.0
