-- ===== src/Bytecode/Bodies.antt =====
-- bytecode.h and bytecode.cpp: what it takes for a kind of `jit_classify_inline` to be right, and the
-- instructions of a body one by one.
use nari.Prelude.{
  ℕ, ◌+◌, ◌≤◌, ◌≡◌, ◌⊎◌, arith, true, List, [], ◌∷◌, some, length, drop, get_elem?, get_or,
  if◌then◌else◌,
}
use nari.Prelude.Int.{ℤ}
use nari.Bytecode.OpCode
use nari.Bytecode.OpcodeInfo.{be_u16}
use nari.Bytecode.Chunk.{Bytes, Constant, JitInlineKind, FunctionMeta}
use nari.Bytecode.Symbolic.{
  Term, argument, constant, binary, Runs, loads_argument, loads_capture, stores_capture,
  loads_constant, operates, Returns, Computes,
}
use nari.Bytecode.Patterns.{one_byte, three_bytes, is_return_end-Returns, is_operator}
use nari.Bytecode.Inline.{InlineClassification, preamble_loop, is_return_end}

-- Where the body begins: behind the CHECK_TYPE preamble of strict mode.
abbrev pub body_start : FunctionMeta → ℕ
body_start func = if func.strict_mode then preamble_loop (length func.code) func.code 0 else 0

-- The body, from the preamble or from the start of the code on, runs to a return and computes what
-- the kind stands for.
pub record IsJustified (func : FunctionMeta) (c : InlineClassification) : Type 0 where
  pub start : ℕ
  pub at_start : (start ≡ body_start func) ⊎ (start ≡ 0)
  pub value : Term
  pub cell : Term
  pub rest : Bytes
  pub runs : Runs func.constants (drop start func.code) rest (value ∷ []) cell
  pub ends : Returns rest
  pub computes : Computes c.kind c.imm value cell

module _ (func : FunctionMeta) where
  abbrev pub code : Bytes
  code = func.code

  abbrev pub RunsFrom : ℕ → ℕ → List Term → Term → Type 0
  RunsFrom start i s cell = Runs func.constants (drop start code) (drop i code) s cell

  pub then_argument :
      (start i j n : ℕ) {s : List Term} {cell : Term}
      → RunsFrom start i s cell
      → j ≡ i + 3
      → j ≤ length code
      → get_or code i 0 ≡ OpCode.op_load_var
      → get_or code (i + 1) 0 ≡ 0
      → get_or code (i + 2) 0 ≡ n
      → RunsFrom start j (argument n ∷ s) cell
  then_argument start i j n {s} {cell} r next inside at_0 at_1 at_2 =
      let three = three_bytes code i j OpCode.op_load_var 0 n next inside at_0 at_1 at_2 in
      let loaded : RunsFrom start j (argument (be_u16 0 n) ∷ s) cell =
        loads_argument (rw three at r) in
      let index : be_u16 0 n ≡ n = omega arith in rw index at loaded

  pub then_capture :
      (start i j : ℕ) {s : List Term} {cell : Term}
      → RunsFrom start i s cell
      → j ≡ i + 3
      → j ≤ length code
      → get_or code i 0 ≡ OpCode.op_load_capture
      → get_or code (i + 1) 0 ≡ 0
      → get_or code (i + 2) 0 ≡ 0
      → RunsFrom start j (cell ∷ s) cell
  then_capture start i j r next inside at_0 at_1 at_2 =
      loads_capture
        (rw (three_bytes code i j OpCode.op_load_capture 0 0 next inside at_0 at_1 at_2) at r)

  pub then_store :
      (start i j : ℕ) {s : List Term} {cell t : Term}
      → RunsFrom start i (t ∷ s) cell
      → j ≡ i + 3
      → j ≤ length code
      → get_or code i 0 ≡ OpCode.op_store_capture
      → get_or code (i + 1) 0 ≡ 0
      → get_or code (i + 2) 0 ≡ 0
      → RunsFrom start j (t ∷ s) t
  then_store start i j r next inside at_0 at_1 at_2 =
      stores_capture
        (rw (three_bytes code i j OpCode.op_store_capture 0 0 next inside at_0 at_1 at_2) at r)

  pub then_constant :
      (start i j high low : ℕ) (v : ℤ) {s : List Term} {cell : Term}
      → RunsFrom start i s cell
      → j ≡ i + 3
      → j ≤ length code
      → get_or code i 0 ≡ OpCode.op_load_const
      → get_or code (i + 1) 0 ≡ high
      → get_or code (i + 2) 0 ≡ low
      → get_elem? func.constants (be_u16 high low) ≡ some (Constant.int v)
      → RunsFrom start j (constant v ∷ s) cell
  then_constant start i j high low v r next inside at_0 at_1 at_2 known =
      loads_constant v known
        (rw (three_bytes code i j OpCode.op_load_const high low next inside at_0 at_1 at_2) at r)

  pub then_operator :
      (start i j op : ℕ) {s : List Term} {cell left right : Term}
      → RunsFrom start i (right ∷ left ∷ s) cell
      → j ≡ i + 1
      → j ≤ length code
      → get_or code i 0 ≡ op
      → is_operator op ≡ true
      → RunsFrom start j (binary op left right ∷ s) cell
  then_operator start i j op r next inside at_i known =
      operates known (rw (one_byte code i j op next inside at_i) at r)

  -- A body that ends at `j` with one value on the stack.
  pub justified :
      (start j : ℕ) (kind : JitInlineKind) (imm : ℤ) {value cell : Term}
      → (start ≡ body_start func) ⊎ (start ≡ 0)
      → RunsFrom start j (value ∷ []) cell
      → is_return_end code j ≡ true
      → Computes kind imm value cell
      → IsJustified func (record { kind = kind; imm = imm })
  justified start j kind imm {value} {cell} at_start r ends c = record {
    start = start;
    at_start = at_start;
    value = value;
    cell = cell;
    rest = drop j code;
    runs = r;
    ends = is_return_end-Returns code j ends;
    computes = c;
  }
