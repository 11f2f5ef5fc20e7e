-- ===== src/Vm/Verified.antt =====
-- A function that the verifier accepts runs without underflow of its operand stack, and every place
-- in it has one height.
use nari.Prelude.{ℕ, ◌≡◌, Bool, List, Option, some, length}
use nari.Bytecode.Chunk.{FunctionMeta}
use nari.Verifier.Decode.{decode_function}
use nari.Verifier.Flow.{Decoded, accepted, verify_stack_flow}
use nari.Verifier.Verify.{limits}
use nari.Verifier.Fixpoint.Rounds.{Agrees}
use nari.Vm.Control.{VmState, running, Reach, IsSafe}

-- What the verifier has found when it accepts a function.
record Accepted (ext : Bool) (n_strs n_funcs : ℕ) (fn : FunctionMeta) : Type 0 where
  d : Decoded
  height_at : List (Option ℕ)
  decoded : decode_function (limits ext n_strs n_funcs fn) fn.code ≡ some d
  flows : verify_stack_flow d ≡ accepted height_at

-- The heights that the verifier has found, which every run of the interpreter keeps to.
record Heights (ext : Bool) (n_strs n_funcs : ℕ) (fn : FunctionMeta) : Type 0 where
  d : Decoded
  height_at : List (Option ℕ)
  size : d.code_size ≡ length fn.code
  at : (pc h : ℕ) → Reach fn.code (running 0 0) (running pc h) → Agrees d height_at (pc, h)
  safe : (s : VmState) → Reach fn.code (running 0 0) s → IsSafe fn.code s
