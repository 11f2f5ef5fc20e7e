-- ===== src/Bytecode/Chunk.antt =====
-- bytecode.h: constants, function metadata, FFI type declarations and the chunk that holds them.
-- A `std::string` is the list of its bytes, a `double` the number of its 64 bits.
use nari.Prelude.{ℕ, ◌-◌, ◌^◌, Bool, false, List, [], ◌∷◌, ◌&&◌, ltb, if◌then◌else◌}
use nari.Prelude.Int.{ℤ, pos, negsuc, leb_ℤ}

abbrev pub Bytes : Type 0
Bytes = List ℕ

-- The members of the union that are in use with each type tag.
pub data Constant : Type 0 where
  none : Constant
  int : ℤ → Constant
  float : ℕ → Constant
  string : ℕ → Constant
  function : ℕ → Constant

abbrev pub int48_min : ℤ
int48_min = negsuc (2 ^ 47 - 1)

abbrev pub int48_max : ℤ
int48_max = pos (2 ^ 47 - 1)

abbrev pub fits_int48 : ℤ → Bool
fits_int48 val = leb_ℤ int48_min val && leb_ℤ val int48_max

-- `to_double` is the conversion `static_cast<double>` of the platform.
unfoldable pub make_int : (ℤ → ℕ) → ℤ → Constant
make_int to_double val = if fits_int48 val then int val else float (to_double val)

pub data JitInlineKind : Type 0 where
  none int_add int_sub int_mul mul_const add_const sub_const : JitInlineKind
  closure_inc closure_add_const identity negate : JitInlineKind
  lt le gt ge eq ne capture0 : JitInlineKind

pub record LineEntry : Type 0 where
  pub pc_offset : ℕ
  pub line : ℤ

pub record FunctionMeta : Type 0 where
  pub self_idx : ℕ
  pub name : Bytes
  pub source_file : Bytes
  pub code : Bytes
  pub constants : List Constant
  pub var_names : List Bytes
  pub line_map : List LineEntry
  pub param_count : ℕ
  pub capture_count : ℕ
  pub rest_param_index : ℤ
  pub is_lambda : Bool
  pub js_undefined_params : Bool
  pub strict_mode : Bool
  pub return_vt : ℤ
  pub jit_inline_kind : JitInlineKind
  pub jit_inline_imm : ℤ

-- The default member initialisers and the constructor.
unfoldable pub empty_function : FunctionMeta
empty_function = record {
  self_idx = 0;
  name = [];
  source_file = [];
  code = [];
  constants = [];
  var_names = [];
  line_map = [];
  param_count = 0;
  capture_count = 0;
  rest_param_index = negsuc 0;
  is_lambda = false;
  js_undefined_params = false;
  strict_mode = false;
  return_vt = pos 0;
  jit_inline_kind = none;
  jit_inline_imm = pos 0;
}

-- The loop of `resolve_line` past its first read: `line` is the line of the last entry passed.
resolve_line_loop : ℤ → List LineEntry → ℕ → ℤ
resolve_line_loop line [] pc_offset = line
resolve_line_loop line (e ∷ es) pc_offset =
    let rest = resolve_line_loop e.line es pc_offset in
    if ltb pc_offset e.pc_offset then line else rest

unfoldable pub resolve_line : List LineEntry → ℕ → ℤ
unfolding resolve_line_loop
resolve_line [] pc_offset = pos 0
resolve_line (e ∷ es) pc_offset = resolve_line_loop e.line (e ∷ es) pc_offset

pub record TypeFieldInfo : Type 0 where
  pub name : Bytes
  pub type_name : Bytes
  pub is_array : Bool
  pub fixed_array_count : ℕ

pub record TypeInfo : Type 0 where
  pub name : Bytes
  pub is_union : Bool
  pub fields : List TypeFieldInfo
  pub alias_target : Bytes

-- Without the tables of compiled class methods and the cache of string constants, which are filled
-- after loading.
pub record Chunk : Type 0 where
  pub functions : List FunctionMeta
  pub strings : List Bytes
  pub types : List TypeInfo
  pub main_func_idx : ℕ
