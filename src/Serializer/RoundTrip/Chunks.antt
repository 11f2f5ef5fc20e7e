-- ===== src/Serializer/RoundTrip/Chunks.antt =====
-- bytecode_serializer.h: the parts of a chunk, from constants to type declarations, are read back.
use nari.Prelude.{
  ℕ, ◌≤◌, ◌≡◌, refl, ap, ◌∙◌, arith, List, [], ◌∷◌, ◌++◌, append_assoc, append-nil, map, Option,
  some, length, length-append, All-both, take-append, drop-append, All, le→ltb, lt→ltb,
}
use mathlib.Core.List.{map-id}
use nari.Prelude.Int.{ℤ}
use nari.Bytecode.Chunk.{Bytes, Constant, make_int, FunctionMeta, TypeFieldInfo, TypeInfo, Chunk}
use nari.Serializer.Code.{max_code, compact_code}
use nari.Serializer.Emit.{
  write_all, write_constant, write_code, write_function, write_field, write_type, write_body,
}
use nari.Serializer.Write.{write_string, write_varuint}
use nari.Serializer.Read.{read_many, read_string, read_count, max_count}
use nari.Serializer.Parse.{
  read_code, max_fixed_array_count, read_field, read_type, read_types, read_constant, read_function,
  read_body,
}
use nari.Serializer.RoundTrip.Numbers.{
  IsI64, read_u8-write_u8, read_i8-write_i8, read_u16-write_u16, read_bool-write_bool,
  read_varuint32-write_varuint, read_count-write_varuint, read_varint-write_varint,
  read_u64-write_u64, read_f64-write_f64, read_string-write_string,
}
use nari.Serializer.RoundTrip.Rounds.{IsWhole}
use nari.Serializer.Storable.{
  IsStorableString, IsStorableConstant, IsStorableFunction, IsStorableField, IsStorableType,
  IsStorable, loaded_function, loaded_chunk,
}
use nari.Serializer.RoundTrip.Code.{expand_code-compact_code}

module _ {ℓ κ} {A : Type ℓ} (P : A → Type κ) where
  pub read_many-write_all :
      (read : Bytes → Option (A × Bytes)) (write : A → Bytes) (g : A → A)
      → ((x : A) (rest : Bytes) → P x → read (write x ++ rest) ≡ some (g x, rest))
      → (xs : List A) (rest : Bytes) → All P xs
      → read_many read (length xs) (write_all write xs ++ rest) ≡ some (map g xs, rest)
  unfolding read_many write_all
  read_many-write_all read write g each [] rest h = refl
  read_many-write_all read write g each (x ∷ xs) rest h = rw (
    append_assoc,
    each x (write_all write xs ++ rest) h.0,
    read_many-write_all read write g each xs rest h.1,
  )

  pub read_many-write_same :
      (read : Bytes → Option (A × Bytes)) (write : A → Bytes)
      → ((x : A) (rest : Bytes) → P x → read (write x ++ rest) ≡ some (x, rest))
      → (xs : List A) (rest : Bytes) → All P xs
      → read_many read (length xs) (write_all write xs ++ rest) ≡ some (xs, rest)
  read_many-write_same read write each xs rest h =
      read_many-write_all read write (λ x. x) each xs rest h ∙ ap (λ t. some (t, rest)) (map-id xs)

pub read_code-write_code :
    (code rest : Bytes)
    → IsWhole code
    → length code ≤ max_code
    → read_code (write_code code ++ rest) ≡ some (code, rest)
unfolding read_code write_code
read_code-write_code code rest w h =
    let (back, shorter) = expand_code-compact_code code w h in
    let short : length (compact_code code) ≤ max_code = omega arith in
    rw (
      append_assoc,
      read_varuint32-write_varuint (length (compact_code code)) (compact_code code ++ rest)
          (omega arith),
      le→ltb max_code (length (compact_code code)) short,
      le→ltb (length (compact_code code ++ rest)) (length (compact_code code))
          (omega (arith, length-append (compact_code code) rest)),
      take-append,
      drop-append,
      back,
    )

pub read_field-write_field :
    (field : TypeFieldInfo) (rest : Bytes)
    → IsStorableField field
    → read_field (write_field field ++ rest) ≡ some (field, rest)
unfolding read_field write_field
read_field-write_field field rest h = simp append_assoc (
    rw (
      read_string-write_string field.name _ h.name,
      read_string-write_string field.type_name _ h.type_name,
      read_bool-write_bool field.is_array,
      read_u64-write_u64 field.fixed_array_count rest (omega arith),
      le→ltb max_fixed_array_count field.fixed_array_count h.fixed_array_count,
    ))

pub read_type-write_type :
    (type : TypeInfo) (rest : Bytes)
    → IsStorableType type
    → read_type (write_type type ++ rest) ≡ some (type, rest)
unfolding read_type write_type
read_type-write_type type rest h = simp append_assoc (
    rw (
      read_string-write_string type.name _ h.name,
      read_bool-write_bool type.is_union,
      read_string-write_string type.alias_target _ h.alias_target,
      read_count-write_varuint (length type.fields) _ h.field_count,
      read_many-write_same IsStorableField read_field write_field read_field-write_field type.fields
          rest h.fields,
    ))

-- A count that can be read is not the end of the file.
read_types-count :
    (bytes : Bytes) {count : ℕ} {p1 : Bytes} {types : List TypeInfo} {p2 : Bytes}
    → read_count bytes ≡ some (count, p1)
    → read_many read_type count p1 ≡ some (types, p2)
    → read_types bytes ≡ some types
unfolding read_types
read_types-count [] h m = absurd (unfold read_count in cc)
read_types-count (b ∷ rest) h m = rw (h, m)

read_types-write_types :
    (types : List TypeInfo)
    → length types ≤ max_count
    → All IsStorableType types
    → read_types (write_varuint (length types) ++ write_all write_type types) ≡ some types
read_types-write_types types h all =
    read_types-count _ (read_count-write_varuint (length types) (write_all write_type types) h) (
      rw append-nil at (
        read_many-write_same IsStorableType read_type write_type read_type-write_type types [] all))

module _ (to_double : ℤ → ℕ) where
  pub read_constant-write_constant :
      (n_strings : ℕ) (c : Constant) (rest : Bytes)
      → IsStorableConstant n_strings c
      → read_constant to_double n_strings (write_constant c ++ rest) ≡ some (c, rest)
  unfolding read_constant write_constant
  read_constant-write_constant n Constant.none rest h = rw (read_u8-write_u8 0 rest (omega arith))
  read_constant-write_constant n (Constant.int v) rest h =
      let wide : IsI64 v = ground arith in
      simp append_assoc (
        rw (read_u8-write_u8 1 _ (omega arith), read_varint-write_varint v rest wide)
          (unfold make_int in rw h))
  read_constant-write_constant n (Constant.float u) rest h =
      simp append_assoc (rw (read_u8-write_u8 2 _ (omega arith), read_f64-write_f64 u rest h))
  read_constant-write_constant n (Constant.string idx) rest h = simp append_assoc (
      rw (
        read_u8-write_u8 3 _ (omega arith),
        read_varuint32-write_varuint idx rest h.0,
        lt→ltb idx n h.1,
      ))
  read_constant-write_constant n (Constant.function idx) rest h =
      simp append_assoc
        (rw (read_u8-write_u8 4 _ (omega arith), read_varuint32-write_varuint idx rest h))

  pub read_function-write_function :
      (n_strings : ℕ) (func : FunctionMeta) (rest : Bytes)
      → IsStorableFunction n_strings func × IsWhole func.code
      → read_function to_double n_strings (write_function func ++ rest)
        ≡ some (loaded_function func, rest)
  unfolding read_function write_function loaded_function
  read_function-write_function n func rest (h, whole) = simp append_assoc (
      rw (
        read_string-write_string func.name _ h.name,
        read_u8-write_u8 func.param_count _ h.param_count,
        read_u16-write_u16 func.capture_count _ h.capture_count,
        read_i8-write_i8 func.rest_param_index _ h.rest_param_index,
        read_bool-write_bool func.is_lambda,
        read_bool-write_bool func.js_undefined_params,
        read_bool-write_bool func.strict_mode,
        read_count-write_varuint (length func.var_names) _ h.var_count,
        read_many-write_same IsStorableString read_string write_string read_string-write_string
            func.var_names _ h.var_names,
        read_count-write_varuint (length func.constants) _ h.const_count,
        read_many-write_same (IsStorableConstant n) (read_constant to_double n) write_constant
            (read_constant-write_constant n) func.constants _ h.constants,
        read_code-write_code func.code rest whole h.code_length,
      ))

  -- The body of a storable chunk whose functions are rows of whole instructions is read back, up to the
  -- fields that the format has no place for.
  pub read_body-write_body :
      (chunk : Chunk)
      → IsStorable chunk
      → All (λ func. IsWhole func.code) chunk.functions
      → read_body to_double (write_body chunk) ≡ some (loaded_chunk chunk)
  unfolding read_body write_body loaded_chunk
  read_body-write_body chunk h whole = rw (
    read_count-write_varuint (length chunk.strings) _ h.string_count,
    read_many-write_same IsStorableString read_string write_string read_string-write_string
        chunk.strings _ h.strings,
    read_count-write_varuint (length chunk.functions) _ h.func_count,
    read_varuint32-write_varuint chunk.main_func_idx _ h.main_func_idx,
    read_many-write_all (λ func. IsStorableFunction (length chunk.strings) func × IsWhole func.code)
        (read_function to_double (length chunk.strings)) write_function loaded_function
        (read_function-write_function (length chunk.strings)) chunk.functions _
        (All-both _ _ chunk.functions h.functions whole),
    read_types-write_types chunk.types h.type_count h.types,
  )
