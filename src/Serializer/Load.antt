-- ===== src/Serializer/Load.antt =====
-- bytecode_serializer.h: `deserialize`, with the header in front of the body and the verifier behind it.
use nari.Prelude.{
  ℕ, ◌≡◌, refl, arith, Bool, true, false, not, List, [], ◌∷◌, Option, Option-cases, none, some, inl,
  inr, ◌==◌, ltb, length, if◌then◌else◌, map, All, ◌&&◌,
}
use nari.Prelude.Int.{ℤ}
use nari.Bytecode.Chunk.{Bytes, FunctionMeta, Chunk}
use nari.Serializer.Read.{read_u16}
use nari.Serializer.Write.{write_u16}
use nari.Serializer.Emit.{format_version, serialize}
use nari.Serializer.Parse.{read_body}
use nari.Serializer.Storable.{IsStorable, loaded_function, loaded_chunk}
use nari.Serializer.RoundTrip.Rounds.{IsWhole}
use nari.Serializer.RoundTrip.Chunks.{read_body-write_body}
use nari.Verifier.Decode.{decode_function}
use nari.Verifier.Decoding.Tiles.{decode_function-IsWhole}
use nari.Verifier.Verify.{limits, verify_function, verify_functions, verify}

-- The exceptions of `deserialize`, in the order of their tests. `malformed` stands for every read
-- past the end, bad tag, bad opcode and bad count of the body.
pub data LoadError : Type 0 where
  too_small : LoadError
  bad_magic : LoadError
  bad_version : LoadError
  malformed : LoadError
  unverified : LoadError

pub data Loaded : Type 0 where
  failed : LoadError → Loaded
  ok : Chunk → Loaded

module _ (to_double : ℤ → ℕ) (extended_jsrt : Bool) where
  -- The verifier runs over what was read.
  unfoldable pub accept_chunk : Option Chunk → Loaded
  accept_chunk none = failed malformed
  accept_chunk (some chunk) = if verify extended_jsrt chunk then ok chunk else failed unverified

  -- Version and flags, behind the magic number. No flag is defined, so they are skipped.
  unfoldable pub read_versioned : Bytes → Loaded
  unfolding accept_chunk
  read_versioned p0 = elim (read_u16 p0) [
    | none ↦ failed malformed
    | some (version, p1) ↦
        if not (version == format_version) then failed bad_version else elim (read_u16 p1) [
          | none ↦ failed malformed
          | some (flags, p2) ↦ accept_chunk (read_body to_double p2)
        ]
  ]

  unfoldable pub deserialize : Bytes → Loaded
  unfolding read_versioned
  deserialize bytes = if ltb (length bytes) 8 then failed too_small else elim bytes [
    | a ∷ b ∷ c ∷ d ∷ rest ↦
        if a == 78 && b == 65 && c == 82 && d == 73 then read_versioned rest else failed bad_magic
    | _ ↦ failed too_small
  ]

-- The verifier looks at nothing that the file has no place for.
verify_function-loaded :
    (ext : Bool) (n_strs n_funcs : ℕ) (fn : FunctionMeta)
    → verify_function ext n_strs n_funcs (loaded_function fn)
      ≡ verify_function ext n_strs n_funcs fn
unfolding verify_function limits loaded_function
verify_function-loaded ext n_strs n_funcs fn = refl

verify_functions-loaded :
    (ext : Bool) (n_strs n_funcs : ℕ) (fns : List FunctionMeta)
    → verify_functions ext n_strs n_funcs (map loaded_function fns)
      ≡ verify_functions ext n_strs n_funcs fns
unfolding verify_functions
verify_functions-loaded ext n_strs n_funcs [] = refl
verify_functions-loaded ext n_strs n_funcs (fn ∷ fns) =
    rw
      (verify_function-loaded ext n_strs n_funcs fn, verify_functions-loaded ext n_strs n_funcs fns)

length-map_loaded : (fns : List FunctionMeta) → length (map loaded_function fns) ≡ length fns
length-map_loaded [] = refl
length-map_loaded (fn ∷ fns) = rw (length-map_loaded fns)

verify-loaded : (ext : Bool) (chunk : Chunk) → verify ext (loaded_chunk chunk) ≡ verify ext chunk
unfolding verify loaded_chunk
verify-loaded ext chunk = rw (
  length-map_loaded chunk.functions,
  verify_functions-loaded ext (length chunk.strings) (length chunk.functions) chunk.functions,
)

-- Accepted code is a row of whole instructions.
verify_function-IsWhole :
    (ext : Bool) (n_strs n_funcs : ℕ) (fn : FunctionMeta)
    → verify_function ext n_strs n_funcs fn ≡ true
    → IsWhole fn.code
unfolding verify_function limits
verify_function-IsWhole ext n_strs n_funcs fn h =
    let l = limits ext n_strs n_funcs fn in
    elim (Option-cases (decode_function l fn.code)) [
      | inl nothing ↦ absurd (ground (arith, rw nothing at h))
      | inr (d, decoded) ↦ decode_function-IsWhole l fn.code d refl decoded
    ]

verify_functions-IsWhole :
    (ext : Bool) (n_strs n_funcs : ℕ) (fns : List FunctionMeta)
    → verify_functions ext n_strs n_funcs fns ≡ true
    → All (λ func. IsWhole func.code) fns
unfolding verify_functions
verify_functions-IsWhole ext n_strs n_funcs [] h = tt
verify_functions-IsWhole ext n_strs n_funcs (fn ∷ fns) h = (
  verify_function-IsWhole ext n_strs n_funcs fn (ground arith),
  verify_functions-IsWhole ext n_strs n_funcs fns (ground arith),
)

verify-IsWhole :
    (ext : Bool) (chunk : Chunk)
    → verify ext chunk ≡ true
    → All (λ func. IsWhole func.code) chunk.functions
unfolding verify
verify-IsWhole ext chunk h =
    verify_functions-IsWhole ext (length chunk.strings) (length chunk.functions) chunk.functions
      (ground arith)

serialize-length : (chunk : Chunk) → ltb (length (serialize chunk)) 8 ≡ false
unfolding serialize write_u16
serialize-length chunk = ground arith

-- A storable chunk that the verifier accepts is loaded again from its file, with the fields that the
-- format has no place for at their defaults.
pub deserialize-serialize :
    (to_double : ℤ → ℕ) (ext : Bool) (chunk : Chunk)
    → IsStorable chunk
    → verify ext chunk ≡ true
    → deserialize to_double ext (serialize chunk) ≡ ok (loaded_chunk chunk)
unfolding deserialize serialize write_u16 read_u16
deserialize-serialize to_double ext chunk storable accepted = rw (
  serialize-length chunk,
  read_body-write_body to_double chunk storable (verify-IsWhole ext chunk accepted),
  verify-loaded ext chunk,
  accepted,
)

-- A chunk that `deserialize` returns, from any bytes, has been accepted by the verifier.
pub deserialize-verify :
    (to_double : ℤ → ℕ) (ext : Bool) (bytes : Bytes) (chunk : Chunk)
    → deserialize to_double ext bytes ≡ ok chunk
    → verify ext chunk ≡ true
unfolding deserialize
deserialize-verify to_double ext bytes chunk h = ground arith
