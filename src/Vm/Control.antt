-- ===== src/Vm/Control.antt =====
-- bytecode.cpp: how the interpreter moves through the code of a function, and what that does to the
-- height of the operand stack above the frame. Calls are single steps. What an opcode that neither
-- jumps nor iterates does to the stack is in `Actions`.
use nari.Prelude.{
  ℕ, suc, ◌+◌, ◌-◌, ◌≤◌, ◌<◌, ◌≡◌, ◌⊎◌, Bool, true, false, not, List, [], ◌∷◌, some, ◌==◌,
  is_one_of, length, drop, if◌then◌else◌,
}
use nari.Prelude.Int.{pos, ◌+ℤ◌}
use nari.Bytecode.Chunk.{Bytes}
use nari.Bytecode.OpcodeInfo.{decoded_instruction_size}
use nari.Bytecode.OpCode
use nari.Verifier.Insn.{read_i16_be, to_size, conditional_jumps}
use nari.Vm.Actions.{run_actions, actions}

-- The interpreter reads `op` at `pc`, with the bytes `rest` behind it.
abbrev pub Fetches : Bytes → ℕ → ℕ → Bytes → Type 0
Fetches code pc op rest = drop pc code ≡ op ∷ rest

abbrev pub iterators : List ℕ
iterators = OpCode.op_iter_next ∷ OpCode.op_iter_next_kv ∷ []

-- The values that an iterator opcode pushes under its flag: one, or a key and a value.
abbrev pub value_count : ℕ → ℕ
value_count op = if op == OpCode.op_iter_next then 1 else 2

-- `ip() += offset`, after the opcode and a 16-bit operand were read.
unfoldable pub jump_to : ℕ → Bytes → ℕ
unfolding ◌+ℤ◌
jump_to pc rest = to_size (pos (pc + 3) +ℤ read_i16_be rest 0)

-- Whether a conditional jump is taken on the flag of an iterator; a flag is not `none`.
abbrev pub jumps_on : ℕ → Bool → Bool
jumps_on op flag =
    if op == OpCode.op_jump_if_false
    then not flag
    else if op == OpCode.op_jump_if_true
    then flag
    else false

pub record TryHandler : Type 0 where
  pub catch_ip : ℕ
  pub finally_ip : ℕ
  pub stack_depth : ℕ

-- `SETUP_TRY`: `current_pos` is behind both operands, five bytes from the opcode.
unfoldable pub setup_try : ℕ → Bytes → ℕ → TryHandler
unfolding ◌+ℤ◌
setup_try pc rest depth = record {
  catch_ip = to_size (pos (pc + 5 - 2) +ℤ read_i16_be rest 0);
  finally_ip = to_size (pos (pc + 5) +ℤ read_i16_be rest 2);
  stack_depth = depth;
}

-- `running pc h` is about to read the opcode at `pc`; `branching pc h flag` is so too, and `flag` is
-- the boolean that an iterator opcode has just pushed.
pub data VmState : Type 0 where
  running : ℕ → ℕ → VmState
  branching : ℕ → ℕ → Bool → VmState

abbrev pub is_plain : ℕ → Bool
is_plain op = not (
    is_one_of op (
      OpCode.op_jump ∷ OpCode.op_return ∷ OpCode.op_throw ∷ OpCode.op_self_tail_call
      ∷ OpCode.op_iter_next ∷ OpCode.op_iter_next_kv ∷ conditional_jumps))

pub data Step (code : Bytes) : VmState → VmState → Type 0 where
  plain :
      {pc h h' op : ℕ} {rest : Bytes}
      → Fetches code pc op rest
      → is_plain op ≡ true
      → run_actions (actions op rest) h ≡ some h'
      → Step code (running pc h) (running (pc + decoded_instruction_size (op ∷ rest)) h')
  jump :
      {pc h op : ℕ} {rest : Bytes}
      → Fetches code pc op rest
      → op ≡ OpCode.op_jump
      → Step code (running pc h) (running (jump_to pc rest) h)
  taken :
      {pc h op : ℕ} {rest : Bytes}
      → Fetches code pc op rest
      → is_one_of op conditional_jumps ≡ true
      → Step code (running pc (suc h)) (running (jump_to pc rest) h)
  falls :
      {pc h op : ℕ} {rest : Bytes}
      → Fetches code pc op rest
      → is_one_of op conditional_jumps ≡ true
      → Step code (running pc (suc h)) (running (pc + 3) h)
  -- The array and the index stay below what is pushed.
  iterates :
      {pc h op : ℕ} {rest : Bytes}
      → Fetches code pc op rest
      → is_one_of op iterators ≡ true
      → 2 ≤ h
      → Step code (running pc h) (branching (pc + 1) (h + value_count op + 1) true)
  ends :
      {pc h op : ℕ} {rest : Bytes}
      → Fetches code pc op rest
      → is_one_of op iterators ≡ true
      → 2 ≤ h
      → Step code (running pc h) (branching (pc + 1) (h + 1) false)
  branches :
      {pc h op : ℕ} {rest : Bytes} (flag : Bool)
      → Fetches code pc op rest
      → is_one_of op conditional_jumps ≡ true
      → Step code
          (branching pc (suc h) flag)
          (running (if jumps_on op flag then jump_to pc rest else pc + 3) h)
  -- A throw while the handler is installed: the stack is cut to its depth, and the error is pushed.
  catches :
      {pc h op : ℕ} {rest : Bytes}
      → Fetches code pc op rest
      → op ≡ OpCode.op_setup_try
      → (setup_try pc rest h).catch_ip < length code
      → Step code
          (running pc h)
          (running (setup_try pc rest h).catch_ip ((setup_try pc rest h).stack_depth + 1))

pub data Reach (code : Bytes) (s : VmState) : VmState → Type 0 where
  here : Reach code s s
  next : {t u : VmState} → Reach code s t → Step code t u → Reach code s u

-- The operands of the instruction at `pc` are on the stack.
abbrev pub CanRun : Bytes → ℕ → ℕ → Type 0
CanRun code pc h =
    (op : ℕ) × (rest : Bytes) × Fetches code pc op rest
    × ((is_one_of op iterators ≡ true) × (2 ≤ h)
        ⊎ (h' : ℕ) × (run_actions (actions op rest) h ≡ some h'))

-- No underflow: at the end of the code, or at an instruction with its operands.
abbrev pub IsSafe : Bytes → VmState → Type 0
IsSafe code (running pc h) = (pc ≡ length code) ⊎ CanRun code pc h
IsSafe code (branching pc h flag) =
    (0 < h)
    × ((op : ℕ) × (rest : Bytes) × Fetches code pc op rest
        × (is_one_of op conditional_jumps ≡ true))
