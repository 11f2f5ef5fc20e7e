-- ===== src/Tests/Inlining.antt =====
-- Tests of `jit_classify_inline`.
use nari.Prelude.{◌≡◌, refl, false, true, [], ◌∷◌}
use nari.Prelude.Int.{pos, negsuc}
use nari.Bytecode.Chunk.{Bytes, Constant, JitInlineKind, FunctionMeta}
use nari.Bytecode.Inline.{
  matches, preamble_loop, is_return_end, int_constant, capture_getter, two_args, arg_const,
  const_kind, first_found, jit_classify_inline,
}

-- Strict: LOAD_VAR 0, CHECK_TYPE, STORE_VAR 0, POP; then LOAD_VAR 0, LOAD_CONST 0, MUL, RETURN.
abbrev scale_code : Bytes
scale_code = 1 ∷ 0 ∷ 0 ∷ 71 ∷ 0 ∷ 0 ∷ 0 ∷ 2 ∷ 0 ∷ 0 ∷ 5 ∷ 1 ∷ 0 ∷ 0 ∷ 0 ∷ 0 ∷ 0 ∷ 14 ∷ 41 ∷ []

abbrev scale : FunctionMeta
scale = record {
  self_idx = 0;
  name = [];
  source_file = [];
  code = scale_code;
  constants = Constant.int (pos 3) ∷ [];
  var_names = [];
  line_map = [];
  param_count = 1;
  capture_count = 0;
  rest_param_index = negsuc 0;
  is_lambda = false;
  js_undefined_params = false;
  strict_mode = true;
  return_vt = pos 0;
  jit_inline_kind = JitInlineKind.none;
  jit_inline_imm = pos 0;
}

scale_kind : jit_classify_inline scale ≡ record { kind = JitInlineKind.mul_const; imm = pos 3 }
unfolding jit_classify_inline first_found preamble_loop matches is_return_end int_constant
    capture_getter two_args arg_const const_kind
scale_kind = refl
