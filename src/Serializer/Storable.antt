-- ===== src/Serializer/Storable.antt =====
-- The chunks that the .naric format has room for, and what loading keeps of them.
use nari.Prelude.{ℕ, ◌≤◌, ◌<◌, ◌^◌, ◌≡◌, true, map, length, All}
use nari.Bytecode.Chunk.{
  Bytes, Constant, fits_int48, FunctionMeta, empty_function, TypeFieldInfo, TypeInfo, Chunk,
}
use nari.Serializer.Code.{max_code}
use nari.Serializer.Read.{max_count}
use nari.Serializer.Parse.{max_fixed_array_count}
use nari.Serializer.RoundTrip.Numbers.{IsI8}

abbrev pub IsStorableString : Bytes → Type 0
IsStorableString s = length s ≤ 2 ^ 24

-- The constants that the compiler makes: integers through `make_int`, indices in 32 bits.
abbrev pub IsStorableConstant : ℕ → Constant → Type 0
IsStorableConstant n_strings Constant.none = Unit {0}
IsStorableConstant n_strings (Constant.int v) = fits_int48 v ≡ true
IsStorableConstant n_strings (Constant.float u) = u < 2 ^ 64
IsStorableConstant n_strings (Constant.string idx) = (idx < 2 ^ 32) × (idx < n_strings)
IsStorableConstant n_strings (Constant.function idx) = idx < 2 ^ 32

-- The widths of the C++ fields, and the limits of the reader.
pub record IsStorableFunction (n_strings : ℕ) (func : FunctionMeta) : Type 0 where
  pub name : IsStorableString func.name
  pub param_count : func.param_count < 256
  pub capture_count : func.capture_count < 2 ^ 16
  pub rest_param_index : IsI8 func.rest_param_index
  pub var_count : length func.var_names ≤ max_count
  pub var_names : All IsStorableString func.var_names
  pub const_count : length func.constants ≤ max_count
  pub constants : All (IsStorableConstant n_strings) func.constants
  pub code_length : length func.code ≤ max_code

pub record IsStorableField (field : TypeFieldInfo) : Type 0 where
  pub name : IsStorableString field.name
  pub type_name : IsStorableString field.type_name
  pub fixed_array_count : field.fixed_array_count ≤ max_fixed_array_count

pub record IsStorableType (type : TypeInfo) : Type 0 where
  pub name : IsStorableString type.name
  pub alias_target : IsStorableString type.alias_target
  pub field_count : length type.fields ≤ max_count
  pub fields : All IsStorableField type.fields

pub record IsStorable (chunk : Chunk) : Type 0 where
  pub string_count : length chunk.strings ≤ max_count
  pub strings : All IsStorableString chunk.strings
  pub func_count : length chunk.functions ≤ max_count
  pub functions : All (IsStorableFunction (length chunk.strings)) chunk.functions
  pub main_func_idx : chunk.main_func_idx < 2 ^ 32
  pub type_count : length chunk.types ≤ max_count
  pub types : All IsStorableType chunk.types

-- A function as it is after loading: what the file has no place for is back at its default.
unfoldable pub loaded_function : FunctionMeta → FunctionMeta
unfolding empty_function
loaded_function func = record empty_function {
  name = func.name;
  code = func.code;
  constants = func.constants;
  var_names = func.var_names;
  param_count = func.param_count;
  capture_count = func.capture_count;
  rest_param_index = func.rest_param_index;
  is_lambda = func.is_lambda;
  js_undefined_params = func.js_undefined_params;
  strict_mode = func.strict_mode;
}

unfoldable pub loaded_chunk : Chunk → Chunk
unfolding loaded_function
loaded_chunk chunk = record chunk { functions = map loaded_function chunk.functions }
