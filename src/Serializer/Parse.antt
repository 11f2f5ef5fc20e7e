-- ===== src/Serializer/Parse.antt =====
-- bytecode_serializer.h: the body of `deserialize`, from the string table to the type declarations.
-- `Load` has the header and the verifier around it.
use nari.Prelude.{
  ℕ, List, [], ◌∷◌, Option, none, some, ◌==◌, not, ltb, length, take, drop, if◌then◌else◌, ◌>>=◌,
  ◌>>◌, guard,
}
use nari.Prelude.Int.{ℤ}
use nari.Bytecode.Chunk.{
  Bytes, Constant, make_int, FunctionMeta, empty_function, TypeFieldInfo, TypeInfo, Chunk,
}
use nari.Serializer.Read.{
  read_u8, read_i8, read_u16, read_varuint32, read_varint, read_u64, read_f64, read_bool,
  read_string, read_count, read_many,
}
use nari.Serializer.Code.{expand_code, max_code}

-- The code of a function: its length, checked, and the expanded bytes.
unfoldable pub read_code : Bytes → Option (Bytes × Bytes)
read_code p0 = do
  (code_len, p1) ← read_varuint32 p0
  guard (not (ltb max_code code_len))
  guard (not (ltb (length p1) code_len))
  code ← expand_code (take code_len p1)
  some (code, drop code_len p1)

abbrev pub max_fixed_array_count : ℕ
max_fixed_array_count = 1048576

unfoldable pub read_field : Bytes → Option (TypeFieldInfo × Bytes)
read_field p0 = do
  (name, p1) ← read_string p0
  (type_name, p2) ← read_string p1
  (is_array, p3) ← read_bool p2
  (fixed_array_count, p4) ← read_u64 p3
  guard (not (ltb max_fixed_array_count fixed_array_count))
  let field : TypeFieldInfo = record {
    name = name;
    type_name = type_name;
    is_array = is_array;
    fixed_array_count = fixed_array_count;
  }
  some (field, p4)

unfoldable pub read_type : Bytes → Option (TypeInfo × Bytes)
read_type p0 = do
  (name, p1) ← read_string p0
  (is_union, p2) ← read_bool p1
  (alias_target, p3) ← read_string p2
  (field_count, p4) ← read_count p3
  (fields, p5) ← read_many read_field field_count p4
  let type : TypeInfo = record {
    name = name;
    is_union = is_union;
    fields = fields;
    alias_target = alias_target;
  }
  some (type, p5)

-- The type declarations may be missing at the end of the file.
unfoldable pub read_types : Bytes → Option (List TypeInfo)
read_types [] = some []
read_types (b ∷ rest) = do
  (type_count, p1) ← read_count (b ∷ rest)
  (types, _) ← read_many read_type type_count p1
  some types

-- The cases of the `switch` on the type tag of a constant, in a chunk of `n_strings` strings.
unfoldable pub read_float : Bytes → Option (Constant × Bytes)
read_float p0 = do (u, p1) ← read_f64 p0; some (Constant.float u, p1)

unfoldable pub read_string_constant : ℕ → Bytes → Option (Constant × Bytes)
read_string_constant n_strings p0 = do
  (idx, p1) ← read_varuint32 p0
  guard (ltb idx n_strings)
  some (Constant.string idx, p1)

unfoldable pub read_function_constant : Bytes → Option (Constant × Bytes)
read_function_constant p0 = do (idx, p1) ← read_varuint32 p0; some (Constant.function idx, p1)

-- `to_double` is the platform's conversion of an int64_t, which `Constant::make_int` uses.
module _ (to_double : ℤ → ℕ) where
  unfoldable pub read_int : Bytes → Option (Constant × Bytes)
  read_int p0 = do (v, p1) ← read_varint p0; some (make_int to_double v, p1)

  unfoldable pub read_constant_data : ℕ → ℕ → Bytes → Option (Constant × Bytes)
  unfolding read_int read_float read_string_constant read_function_constant
  read_constant_data n_strings tag p0 =
      if tag == 1
      then read_int p0
      else if tag == 2
      then read_float p0
      else if tag == 3
      then read_string_constant n_strings p0
      else if tag == 4
      then read_function_constant p0
      else if tag == 0
      then some (Constant.none, p0)
      else none

  unfoldable pub read_constant : ℕ → Bytes → Option (Constant × Bytes)
  unfolding read_constant_data
  read_constant n_strings p0 = do (tag, p1) ← read_u8 p0; read_constant_data n_strings tag p1

  unfoldable pub read_function : ℕ → Bytes → Option (FunctionMeta × Bytes)
  read_function n_strings p0 = do
    (name, p1) ← read_string p0
    (param_count, p2) ← read_u8 p1
    (capture_count, p3) ← read_u16 p2
    (rest_param_index, p4) ← read_i8 p3
    (is_lambda, p5) ← read_bool p4
    (js_undefined_params, p6) ← read_bool p5
    (strict_mode, p7) ← read_bool p6
    (var_count, p8) ← read_count p7
    (var_names, p9) ← read_many read_string var_count p8
    (const_count, p10) ← read_count p9
    (constants, p11) ← read_many (read_constant n_strings) const_count p10
    (code, p12) ← read_code p11
    let func : FunctionMeta = record empty_function {
      name = name;
      code = code;
      constants = constants;
      var_names = var_names;
      param_count = param_count;
      capture_count = capture_count;
      rest_param_index = rest_param_index;
      is_lambda = is_lambda;
      js_undefined_params = js_undefined_params;
      strict_mode = strict_mode;
    }
    some (func, p12)

  unfoldable pub read_body : Bytes → Option Chunk
  read_body p0 = do
    (string_count, p1) ← read_count p0
    (strings, p2) ← read_many read_string string_count p1
    (func_count, p3) ← read_count p2
    (main_func_idx, p4) ← read_varuint32 p3
    (functions, p5) ← read_many (read_function (length strings)) func_count p4
    types ← read_types p5
    let chunk : Chunk = record {
      functions = functions;
      strings = strings;
      types = types;
      main_func_idx = main_func_idx;
    }
    some chunk
