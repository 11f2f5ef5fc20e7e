-- ===== src/Serializer/Emit.antt =====
-- bytecode_serializer.h: `serialize`, the bytes of a chunk.
use nari.Prelude.{ℕ, List, [], ◌∷◌, ◌++◌, length}
use nari.Bytecode.Chunk.{Bytes, Constant, FunctionMeta, TypeFieldInfo, TypeInfo, Chunk}
use nari.Serializer.Write.{
  write_u8, write_i8, write_u16, write_varuint, write_varint, write_u64, write_f64, write_bool,
  write_string,
}
use nari.Serializer.Code.{compact_code}

-- "NARI"
abbrev pub magic : Bytes
magic = 78 ∷ 65 ∷ 82 ∷ 73 ∷ []

abbrev pub format_version : ℕ
format_version = 12

-- `for (const auto &x : xs) write(buf, x);`
unfoldable pub write_all {ℓ} : {A : Type ℓ} → (A → Bytes) → List A → Bytes
write_all write [] = []
write_all write (x ∷ xs) = write x ++ write_all write xs

unfoldable pub write_constant : Constant → Bytes
write_constant Constant.none = write_u8 0
write_constant (Constant.int v) = write_u8 1 ++ write_varint v
write_constant (Constant.float u) = write_u8 2 ++ write_f64 u
write_constant (Constant.string idx) = write_u8 3 ++ write_varuint idx
write_constant (Constant.function idx) = write_u8 4 ++ write_varuint idx

-- The length of the serialized code and the code.
unfoldable pub write_code : Bytes → Bytes
write_code code =
    let serialized_code = compact_code code in
    write_varuint (length serialized_code) ++ serialized_code

unfoldable pub write_function : FunctionMeta → Bytes
write_function func =
    write_string func.name
    ++ (write_u8 func.param_count
        ++ (write_u16 func.capture_count
            ++ (write_i8 func.rest_param_index
                ++ (write_bool func.is_lambda
                    ++ (write_bool func.js_undefined_params
                        ++ (write_bool func.strict_mode
                            ++ (write_varuint (length func.var_names)
                                ++ (write_all write_string func.var_names
                                    ++ (write_varuint (length func.constants)
                                        ++ (write_all write_constant func.constants
                                            ++ write_code func.code))))))))))

unfoldable pub write_field : TypeFieldInfo → Bytes
write_field field =
    write_string field.name
    ++ (write_string field.type_name
        ++ (write_bool field.is_array ++ write_u64 field.fixed_array_count))

unfoldable pub write_type : TypeInfo → Bytes
write_type type =
    write_string type.name
    ++ (write_bool type.is_union
        ++ (write_string type.alias_target
            ++ (write_varuint (length type.fields) ++ write_all write_field type.fields)))

-- What follows the header.
unfoldable pub write_body : Chunk → Bytes
write_body chunk =
    write_varuint (length chunk.strings)
    ++ (write_all write_string chunk.strings
        ++ (write_varuint (length chunk.functions)
            ++ (write_varuint chunk.main_func_idx
                ++ (write_all write_function chunk.functions
                    ++ (write_varuint (length chunk.types) ++ write_all write_type chunk.types)))))

unfoldable pub serialize : Chunk → Bytes
serialize chunk = magic ++ (write_u16 format_version ++ (write_u16 0 ++ write_body chunk))
