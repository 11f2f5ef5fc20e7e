-- ===== src/Verifier/Decoding/Passed.antt =====
-- bytecode_verify.h: what an instruction has passed when it is decoded; its size is the one that
-- `decoded_instruction_size` finds.
use nari.Prelude.{
  ℕ, suc, ◌+◌, ◌*◌, ◌≤◌, ◌<◌, ◌≡◌, refl, sym, ◌≢◌, ◌⊎◌, all_below, all_below_at, not, ◌||◌, ◌&&◌,
  ◌==◌, arith, true, false, ◌∷◌, some, none, length, drop, Option-cases, inl, inr,
}
use nari.Prelude.Int.{pos}
use nari.Bytecode.Chunk.{Bytes}
use nari.Bytecode.OpcodeInfo.{OpcodeInfo, opcode_info, decoded_instruction_size}
use nari.Bytecode.OpCode
use nari.Verifier.Insn.{InsnInfo, read_u16_be}
use nari.Verifier.Decode.{
  Limits, operands_fit, with_operands, check_captures, check_closure, decode_insn,
}
use nari.Serializer.RoundTrip.Rounds.{opcode_info-lt}

-- What one decoded instruction is, where the code ends at `n_code`.
pub record IsAt (pc op : ℕ) (rest : Bytes) (info : InsnInfo) : Type 0 where
  pub pc_here : info.pc ≡ pc
  pub op_here : info.op ≡ op
  pub operand_pc : info.operand_pc ≡ pc + 1
  pub size : info.size ≡ decoded_instruction_size (op ∷ rest)
  pub positive : 0 < info.size
  pub inside : info.size ≤ suc (length rest)

-- An instruction before its operands are read.
abbrev pub blank_insn : ℕ → ℕ → ℕ → InsnInfo
blank_insn pc op size = record {
  pc = pc;
  op = op;
  operand_pc = pc + 1;
  size = size;
  jump_a = pos 0;
  jump_b = pos 0;
  u16_a = 0;
  u8_a = 0;
}

-- What a decoded instruction has passed.
pub record Passed (l : Limits) (pc op : ℕ) (rest : Bytes) (info : InsnInfo) : Type 0 where
  pub row : OpcodeInfo
  pub known : opcode_info op ≡ some row
  pub fits : pc + 1 + row.operand_size ≤ l.n_code
  pub checked :
      (op ≡ OpCode.op_make_closure) × (check_closure l (blank_insn pc op 1) rest ≡ some info)
      ⊎ (op ≢ OpCode.op_make_closure)
        × (operands_fit l op (pc + 1) rest ≡ true)
        × (info ≡ with_operands (blank_insn pc op (1 + row.operand_size)) rest)

decode_known :
    (l : Limits) (pc op : ℕ) (rest : Bytes) (info : InsnInfo) (row : OpcodeInfo)
    → opcode_info op ≡ some row
    → decode_insn l pc op rest ≡ some info
    → Passed l pc op rest info
unfolding decode_insn
decode_known l pc op rest info row known h = record {
  row = row;
  known = known;
  fits = ground arith;
  checked = ground arith;
}

pub decode_insn-Passed :
    (l : Limits) (pc op : ℕ) (rest : Bytes) (info : InsnInfo)
    → decode_insn l pc op rest ≡ some info
    → Passed l pc op rest info
decode_insn-Passed l pc op rest info h = elim (Option-cases (opcode_info op)) [
  | inl e ↦ absurd (unfold decode_insn in ground (arith, e))
  | inr (row, e) ↦ decode_known l pc op rest info row e h
]

variable_table :
    all_below 87 (λ op. elim (opcode_info op) [
      | none ↦ false
      | some row ↦ not row.variable_size || op == OpCode.op_make_closure && row.operand_size == 4
    ])
    ≡ true
unfolding all_below opcode_info
variable_table = refl

closure_row :
    (row : OpcodeInfo)
    → opcode_info OpCode.op_make_closure ≡ some row
    → (row.operand_size ≡ 4) × (row.variable_size ≡ true)
unfolding opcode_info
closure_row row e = ground arith

-- MAKE_CLOSURE alone has a variable size.
fixed_row :
    (op : ℕ) (row : OpcodeInfo)
    → opcode_info op ≡ some row
    → op ≢ OpCode.op_make_closure
    → row.variable_size ≡ false
fixed_row op row e h =
    let t = all_below_at 87 _ op variable_table (opcode_info-lt op e) in ground (arith, rw e at t)

size_fixed :
    (op : ℕ) (rest : Bytes) (row : OpcodeInfo)
    → opcode_info op ≡ some row
    → row.variable_size ≡ false
    → row.operand_size ≤ length rest
    → decoded_instruction_size (op ∷ rest) ≡ 1 + row.operand_size
unfolding decoded_instruction_size
size_fixed op rest row e v h = ground arith

size_variable :
    (op : ℕ) (rest : Bytes) (row : OpcodeInfo)
    → opcode_info op ≡ some row
    → (row.operand_size ≡ 4) × (row.variable_size ≡ true)
    → 4 + read_u16_be rest 2 * 3 ≤ length rest
    → decoded_instruction_size (op ∷ rest) ≡ 5 + read_u16_be rest 2 * 3
unfolding decoded_instruction_size
size_variable op rest row e v h = ground arith

-- What `check_closure` accepts.
pub check_closure-eq-some :
    (l : Limits) (info info' : InsnInfo) (p : Bytes)
    → check_closure l info p ≡ some info'
    → (read_u16_be p 0 < l.n_funcs)
      × (info.operand_pc + 4 + read_u16_be p 2 * 3 ≤ l.n_code)
      × (check_captures l (read_u16_be p 2) (drop 4 p) ≡ true)
      × (info' ≡ record info { u16_a = read_u16_be p 0; size = 1 + 4 + read_u16_be p 2 * 3 })
unfolding check_closure
check_closure-eq-some l info info' p h = (ground arith, ground arith, ground arith, ground arith)

pub decode_insn-IsAt :
    (l : Limits) (pc op : ℕ) (rest : Bytes) (info : InsnInfo)
    → pc + suc (length rest) ≡ l.n_code
    → decode_insn l pc op rest ≡ some info
    → IsAt pc op rest info
decode_insn-IsAt l pc op rest info e h =
    let passed = decode_insn-Passed l pc op rest info h in
    elim passed.checked [
      | inl (closure, checked) ↦
          let (_, inside, _, info_is) = check_closure-eq-some l _ info rest checked in
          let row = closure_row passed.row (rw closure at passed.known) in
          let size = size_variable op rest passed.row passed.known row (omega arith) in
          rw info_is (record {
            pc_here = refl;
            op_here = refl;
            operand_pc = refl;
            size = sym size;
            positive = omega arith;
            inside = omega arith;
          })
      | inr (other, checked, info_is) ↦
          let fits = passed.fits in
          let size =
            size_fixed op rest passed.row passed.known (fixed_row op passed.row passed.known other)
              (omega arith) in
          unfold with_operands in
          rw info_is (record {
            pc_here = refl;
            op_here = refl;
            operand_pc = refl;
            size = sym size;
            positive = omega arith;
            inside = omega arith;
          })
    ]
