-- ===== src/Verifier/Verify.antt =====
-- bytecode_verify.h: `verify_function` and `verify`.
use nari.Prelude.{ℕ, Bool, true, false, List, [], ◌∷◌, none, some, ◌&&◌, ltb, length}
use nari.Bytecode.Chunk.{Constant, FunctionMeta, Chunk}
use nari.Verifier.Decode.{Limits, decode_function}
use nari.Verifier.Flow.{FlowResult, accepted, verify_stack_flow}

unfoldable pub check_constant : ℕ → ℕ → Constant → Bool
check_constant n_strs n_funcs (Constant.string idx) = ltb idx n_strs
check_constant n_strs n_funcs (Constant.function idx) = ltb idx n_funcs
check_constant n_strs n_funcs _ = true

unfoldable pub check_constants : ℕ → ℕ → List Constant → Bool
unfolding check_constant
check_constants n_strs n_funcs [] = true
check_constants n_strs n_funcs (c ∷ cs) =
    check_constant n_strs n_funcs c && check_constants n_strs n_funcs cs

abbrev pub is_accepted : FlowResult → Bool
is_accepted (accepted _) = true
is_accepted _ = false

-- `extended_jsrt` says whether the build defines NARI_EXTENDED_JSRT.
module _ (extended_jsrt : Bool) where
  unfoldable pub limits : ℕ → ℕ → FunctionMeta → Limits
  limits n_strs n_funcs fn = record {
    n_code = length fn.code;
    n_consts = length fn.constants;
    n_locals = length fn.var_names;
    n_caps = fn.capture_count;
    n_strs = n_strs;
    n_funcs = n_funcs;
    extended_jsrt = extended_jsrt;
  }

  unfoldable pub verify_function : ℕ → ℕ → FunctionMeta → Bool
  unfolding check_constants limits
  verify_function n_strs n_funcs fn =
      check_constants n_strs n_funcs fn.constants
      && elim (decode_function (limits n_strs n_funcs fn) fn.code) [
        | none ↦ false
        | some d ↦ is_accepted (verify_stack_flow d)
      ]

  unfoldable pub verify_functions : ℕ → ℕ → List FunctionMeta → Bool
  unfolding verify_function
  verify_functions n_strs n_funcs [] = true
  verify_functions n_strs n_funcs (fn ∷ fns) =
      verify_function n_strs n_funcs fn && verify_functions n_strs n_funcs fns

  unfoldable pub verify : Chunk → Bool
  unfolding verify_functions
  verify chunk =
      ltb chunk.main_func_idx (length chunk.functions)
      && verify_functions (length chunk.strings) (length chunk.functions) chunk.functions
