-- ===== src/Bytecode/Inline.antt =====
-- bytecode.h: `jit_classify_inline`, which finds functions whose body the JIT can put in place of a
-- call. A byte of the code out of range is read nowhere: the size is tested first.
use nari.Prelude.{
  ℕ, zero, suc, ◌+◌, Bool, true, false, ◌&&◌, List, [], ◌∷◌, Option, none, some, ◌==◌, ltb, leb,
  is_one_of, length, get_or, get_elem?, if◌then◌else◌, ◌>>=◌,
}
use nari.Prelude.Int.{ℤ, pos}
use nari.Bytecode.OpCode
use nari.Bytecode.OpcodeInfo.{be_u16}
use nari.Bytecode.Chunk.{Bytes, Constant, JitInlineKind, FunctionMeta}

pub record InlineClassification : Type 0 where
  pub kind : JitInlineKind
  pub imm : ℤ

abbrev pub found : JitInlineKind → ℤ → Option InlineClassification
found kind imm = some (record { kind = kind; imm = imm })

-- The bytes from position `i` on begin with `bytes`, where `none` stands for any byte.
unfoldable pub matches : Bytes → ℕ → List (Option ℕ) → Bool
matches code i [] = true
matches code i (none ∷ bytes) = matches code (i + 1) bytes
matches code i (some b ∷ bytes) = get_or code i 0 == b && matches code (i + 1) bytes

-- The loop over the CHECK_TYPE preamble; each round takes eleven bytes.
unfoldable pub preamble_loop : ℕ → Bytes → ℕ → ℕ
preamble_loop zero code pc = pc
preamble_loop (suc fuel) code pc =
    let base = preamble_loop fuel code (pc + 11) in
    if leb (pc + 11) (length code)
      && get_or code pc 0 == OpCode.op_load_var
      && get_or code (pc + 3) 0 == OpCode.op_check_type
      && get_or code (pc + 6) 0 == 0
      && get_or code (pc + 7) 0 == OpCode.op_store_var
      && get_or code (pc + 10) 0 == OpCode.op_pop
    then base
    else pc

unfoldable pub is_return_end : Bytes → ℕ → Bool
is_return_end code end_off =
    if leb (length code) end_off
    then false
    else if get_or code end_off 0 == OpCode.op_return
    then true
    else ltb (end_off + 4) (length code)
      && get_or code end_off 0 == OpCode.op_check_type
      && get_or code (end_off + 3) 0 == 1
      && get_or code (end_off + 4) 0 == OpCode.op_return

-- `constants[cidx]` where it is an INT.
unfoldable pub int_constant : List Constant → ℕ → Option ℤ
int_constant constants cidx = elim (get_elem? constants cidx) [
  | some (Constant.int v) ↦ some v
  | _ ↦ none
]

abbrev pub load_0 : ℕ → List (Option ℕ)
load_0 op = some op ∷ some 0 ∷ some 0 ∷ []

-- The body takes `size` bytes from `base` on, and a return is behind it.
abbrev pub has_body : Bytes → ℕ → ℕ → Bool
has_body code base size = leb (base + size) (length code) && is_return_end code (base + size)

abbrev pub is_capture_getter : FunctionMeta → ℕ → Bool
is_capture_getter func base =
    func.param_count == 0
    && has_body func.code base 3
    && matches func.code base (load_0 OpCode.op_load_capture)

unfoldable pub capture_getter : FunctionMeta → ℕ → Option InlineClassification
capture_getter func base =
    if is_capture_getter func base then found JitInlineKind.capture0 (pos 0) else none

unfoldable pub two_arg_kind : ℕ → Option JitInlineKind
two_arg_kind op =
    if op == OpCode.op_add
    then some JitInlineKind.int_add
    else if op == OpCode.op_sub
    then some JitInlineKind.int_sub
    else if op == OpCode.op_mul
    then some JitInlineKind.int_mul
    else if op == OpCode.op_lt
    then some JitInlineKind.lt
    else if op == OpCode.op_le
    then some JitInlineKind.le
    else if op == OpCode.op_gt
    then some JitInlineKind.gt
    else if op == OpCode.op_ge
    then some JitInlineKind.ge
    else if op == OpCode.op_eq
    then some JitInlineKind.eq
    else if op == OpCode.op_ne
    then some JitInlineKind.ne
    else none

abbrev pub is_two_args : FunctionMeta → ℕ → Bool
is_two_args func base =
    has_body func.code base 7
    && matches func.code base
        (some OpCode.op_load_var ∷ some 0 ∷ some 0 ∷ some OpCode.op_load_var ∷ some 0 ∷ some 1 ∷ [])

unfoldable pub two_args : FunctionMeta → ℕ → Option InlineClassification
two_args func base =
    if is_two_args func base
    then (two_arg_kind (get_or func.code (base + 6) 0) >>= λ kind. found kind (pos 0))
    else none

unfoldable pub const_kind : ℕ → Option JitInlineKind
const_kind op =
    if op == OpCode.op_mul
    then some JitInlineKind.mul_const
    else if op == OpCode.op_add
    then some JitInlineKind.add_const
    else if op == OpCode.op_sub
    then some JitInlineKind.sub_const
    else none

-- LOAD_VAR(0) LOAD_CONST(k) op
abbrev pub is_arg_const : FunctionMeta → ℕ → Bool
is_arg_const func base =
    has_body func.code base 7
    && matches func.code base
        (some OpCode.op_load_var ∷ some 0 ∷ some 0 ∷ some OpCode.op_load_const ∷ [])

unfoldable pub arg_const : FunctionMeta → ℕ → Option InlineClassification
arg_const func base =
    if is_arg_const func base
    then (int_constant func.constants
          (be_u16 (get_or func.code (base + 4) 0) (get_or func.code (base + 5) 0))
        >>= λ imm. const_kind (get_or func.code (base + 6) 0) >>= λ kind. found kind imm)
    else none

-- LOAD_CONST(k) LOAD_VAR(0) op, where op is MUL or ADD
abbrev pub is_const_arg : FunctionMeta → ℕ → Bool
is_const_arg func base =
    let op = get_or func.code (base + 6) 0 in
    has_body func.code base 7
    && matches func.code base
        (some OpCode.op_load_const ∷ none ∷ none ∷ some OpCode.op_load_var ∷ some 0 ∷ some 0 ∷ [])
    && is_one_of op (OpCode.op_mul ∷ OpCode.op_add ∷ [])

unfoldable pub const_arg : FunctionMeta → ℕ → Option InlineClassification
const_arg func base =
    let op = get_or func.code (base + 6) 0 in
    if is_const_arg func base
    then (int_constant func.constants
          (be_u16 (get_or func.code (base + 1) 0) (get_or func.code (base + 2) 0))
        >>= λ imm. const_kind op >>= λ kind. found kind imm)
    else none

-- The two closures are looked for at the start of the code.
abbrev pub is_closure_inc : FunctionMeta → Bool
is_closure_inc func =
    leb 13 (length func.code)
    && matches func.code 0 (
        some OpCode.op_load_capture
        ∷ some 0
        ∷ some 0
        ∷ some OpCode.op_load_one
        ∷ some OpCode.op_add
        ∷ some OpCode.op_store_capture
        ∷ some 0
        ∷ some 0
        ∷ some OpCode.op_pop
        ∷ some OpCode.op_load_capture
        ∷ some 0
        ∷ some 0
        ∷ [])
    && is_return_end func.code 12

unfoldable pub closure_inc : FunctionMeta → Option InlineClassification
closure_inc func = if is_closure_inc func then found JitInlineKind.closure_inc (pos 1) else none

abbrev pub is_closure_add_const : FunctionMeta → Bool
is_closure_add_const func =
    leb 15 (length func.code)
    && matches func.code 0 (
        some OpCode.op_load_capture
        ∷ some 0
        ∷ some 0
        ∷ some OpCode.op_load_const
        ∷ none
        ∷ none
        ∷ some OpCode.op_add
        ∷ some OpCode.op_store_capture
        ∷ some 0
        ∷ some 0
        ∷ some OpCode.op_pop
        ∷ some OpCode.op_load_capture
        ∷ some 0
        ∷ some 0
        ∷ [])
    && is_return_end func.code 14

unfoldable pub closure_add_const : FunctionMeta → Option InlineClassification
closure_add_const func =
    if is_closure_add_const func
    then int_constant func.constants (be_u16 (get_or func.code 4 0) (get_or func.code 5 0))
      >>= found JitInlineKind.closure_add_const
    else none

abbrev pub is_identity : FunctionMeta → ℕ → Bool
is_identity func base =
    has_body func.code base 3 && matches func.code base (load_0 OpCode.op_load_var)

unfoldable pub identity : FunctionMeta → ℕ → Option InlineClassification
identity func base = if is_identity func base then found JitInlineKind.identity (pos 0) else none

abbrev pub is_negate : FunctionMeta → ℕ → Bool
is_negate func base =
    has_body func.code base 4
    && matches func.code base (load_0 OpCode.op_load_var)
    && get_or func.code (base + 3) 0 == OpCode.op_neg

unfoldable pub negate : FunctionMeta → ℕ → Option InlineClassification
negate func base = if is_negate func base then found JitInlineKind.negate (pos 0) else none

-- The first pattern that is found.
unfoldable pub first_found : List (Option InlineClassification) → InlineClassification
first_found [] = record { kind = JitInlineKind.none; imm = pos 0 }
first_found (none ∷ patterns) = first_found patterns
first_found (some c ∷ patterns) = c

unfoldable pub jit_classify_inline : FunctionMeta → InlineClassification
jit_classify_inline func =
    let base = if func.strict_mode then preamble_loop (length func.code) func.code 0 else 0 in
    first_found (
      capture_getter func base
      ∷ two_args func base
      ∷ arg_const func base
      ∷ const_arg func base
      ∷ closure_inc func
      ∷ closure_add_const func
      ∷ identity func base
      ∷ negate func base
      ∷ [])
