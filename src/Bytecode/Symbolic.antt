-- ===== src/Bytecode/Symbolic.antt =====
-- bytecode.cpp: what a body without jumps and calls returns, as a term over the arguments, the first
-- captured variable and the constants; and what the kinds of `JitInlineKind` stand for.
use nari.Prelude.{ℕ, ◌≡◌, true, List, [], ◌∷◌, some, get_elem?, is_one_of}
use nari.Prelude.Int.{ℤ, pos}
use nari.Bytecode.OpCode
use nari.Bytecode.OpcodeInfo.{be_u16}
use nari.Bytecode.Chunk.{Bytes, Constant, JitInlineKind}

-- `captured` is the variable before the call.
pub data Term : Type 0 where
  argument : ℕ → Term
  captured : Term
  constant : ℤ → Term
  binary : (op : ℕ) → Term → Term → Term
  negated : Term → Term

-- The instructions from `body` on are run down to `rest`: the stack, its top first, and the captured
-- variable.
pub data Runs (constants : List Constant) (body : Bytes) : Bytes → List Term → Term → Type 0 where
  starts : Runs constants body body [] captured
  loads_argument :
      {high low : ℕ} {rest : Bytes} {s : List Term} {cell : Term}
      → Runs constants body (OpCode.op_load_var ∷ high ∷ low ∷ rest) s cell
      → Runs constants body rest (argument (be_u16 high low) ∷ s) cell
  loads_capture :
      {rest : Bytes} {s : List Term} {cell : Term}
      → Runs constants body (OpCode.op_load_capture ∷ 0 ∷ 0 ∷ rest) s cell
      → Runs constants body rest (cell ∷ s) cell
  stores_capture :
      {rest : Bytes} {s : List Term} {cell t : Term}
      → Runs constants body (OpCode.op_store_capture ∷ 0 ∷ 0 ∷ rest) (t ∷ s) cell
      → Runs constants body rest (t ∷ s) t
  loads_constant :
      {high low : ℕ} {rest : Bytes} {s : List Term} {cell : Term} (v : ℤ)
      → get_elem? constants (be_u16 high low) ≡ some (Constant.int v)
      → Runs constants body (OpCode.op_load_const ∷ high ∷ low ∷ rest) s cell
      → Runs constants body rest (constant v ∷ s) cell
  loads_one :
      {rest : Bytes} {s : List Term} {cell : Term}
      → Runs constants body (OpCode.op_load_one ∷ rest) s cell
      → Runs constants body rest (constant (pos 1) ∷ s) cell
  pops :
      {rest : Bytes} {s : List Term} {cell t : Term}
      → Runs constants body (OpCode.op_pop ∷ rest) (t ∷ s) cell
      → Runs constants body rest s cell
  negates :
      {rest : Bytes} {s : List Term} {cell t : Term}
      → Runs constants body (OpCode.op_neg ∷ rest) (t ∷ s) cell
      → Runs constants body rest (negated t ∷ s) cell
  -- The left operand is below the right one.
  operates :
      {op : ℕ} {rest : Bytes} {s : List Term} {cell left right : Term}
      → is_one_of op (
          OpCode.op_add ∷ OpCode.op_sub ∷ OpCode.op_mul ∷ OpCode.op_lt ∷ OpCode.op_le ∷ OpCode.op_gt
          ∷ OpCode.op_ge ∷ OpCode.op_eq ∷ OpCode.op_ne ∷ [])
        ≡ true
      → Runs constants body (op ∷ rest) (right ∷ left ∷ s) cell
      → Runs constants body rest (binary op left right ∷ s) cell

-- The bytes begin with RETURN, or with the CHECK_TYPE of a return value and RETURN.
pub data Returns : Bytes → Type 0 where
  returns : {rest : Bytes} → Returns (OpCode.op_return ∷ rest)
  checks :
      {high low : ℕ} {rest : Bytes}
      → Returns (OpCode.op_check_type ∷ high ∷ low ∷ 1 ∷ OpCode.op_return ∷ rest)

-- The kinds of an operator on two arguments.
pub data Operator : JitInlineKind → ℕ → Type 0 where
  add : Operator JitInlineKind.int_add OpCode.op_add
  sub : Operator JitInlineKind.int_sub OpCode.op_sub
  mul : Operator JitInlineKind.int_mul OpCode.op_mul
  less : Operator JitInlineKind.lt OpCode.op_lt
  less_equal : Operator JitInlineKind.le OpCode.op_le
  greater : Operator JitInlineKind.gt OpCode.op_gt
  greater_equal : Operator JitInlineKind.ge OpCode.op_ge
  equal : Operator JitInlineKind.eq OpCode.op_eq
  not_equal : Operator JitInlineKind.ne OpCode.op_ne

-- A function of the kind, with its operand, returns the first term and leaves the captured variable at
-- the second.
pub data Computes : JitInlineKind → ℤ → Term → Term → Type 0 where
  gets : Computes JitInlineKind.capture0 (pos 0) captured captured
  two_arguments :
      {kind : JitInlineKind} {op : ℕ}
      → Operator kind op
      → Computes kind (pos 0) (binary op (argument 0) (argument 1)) captured
  multiplies_by :
      {imm : ℤ}
      → Computes JitInlineKind.mul_const imm
          (binary OpCode.op_mul (argument 0) (constant imm))
          captured
  multiplies :
      {imm : ℤ}
      → Computes JitInlineKind.mul_const imm
          (binary OpCode.op_mul (constant imm) (argument 0))
          captured
  adds_to :
      {imm : ℤ}
      → Computes JitInlineKind.add_const imm
          (binary OpCode.op_add (argument 0) (constant imm))
          captured
  adds :
      {imm : ℤ}
      → Computes JitInlineKind.add_const imm
          (binary OpCode.op_add (constant imm) (argument 0))
          captured
  subtracts :
      {imm : ℤ}
      → Computes JitInlineKind.sub_const imm
          (binary OpCode.op_sub (argument 0) (constant imm))
          captured
  counts :
      Computes JitInlineKind.closure_inc
        (pos 1)
        (binary OpCode.op_add captured (constant (pos 1)))
        (binary OpCode.op_add captured (constant (pos 1)))
  counts_by :
      {imm : ℤ}
      → Computes JitInlineKind.closure_add_const imm
          (binary OpCode.op_add captured (constant imm))
          (binary OpCode.op_add captured (constant imm))
  passes : Computes JitInlineKind.identity (pos 0) (argument 0) captured
  negative : Computes JitInlineKind.negate (pos 0) (negated (argument 0)) captured
