-- ===== src/Verifier/Decoding/Tiles.antt =====
-- bytecode_verify.h: code that decodes is a row of whole instructions, which the serializer can
-- write in compact form; and the decoding loop is never cut short.
use nari.Prelude.{
  ℕ, zero, suc, ◌+◌, ◌≡◌, arith, List, [], ◌∷◌, some, length, length-drop, drop, >>=-eq-some,
}
use nari.Bytecode.Chunk.{Bytes}
use nari.Verifier.Insn.{InsnInfo}
use nari.Verifier.Flow.{Decoded, PcIndex}
use nari.Verifier.Decode.{Limits, decode_insn, decode_loop, decode_function}
use nari.Verifier.Decoding.Passed.{decode_insn-IsAt}
use nari.Serializer.RoundTrip.Rounds.{IsWhole, done, next}

decode_loop-IsWhole :
    (l : Limits) (fuel pc : ℕ) (bytes : Bytes) (insns : List InsnInfo) (table : PcIndex)
    (d : Decoded)
    → pc + length bytes ≡ l.n_code
    → decode_loop l fuel pc bytes insns table ≡ some d
    → IsWhole bytes
unfolding decode_loop
decode_loop-IsWhole l fuel pc [] insns table d n h = done
decode_loop-IsWhole l zero pc (op ∷ rest) insns table d n h = absurd (cc)
decode_loop-IsWhole l (suc fuel) pc (op ∷ rest) insns table d n h =
    let (info, decoded, more) = >>=-eq-some (decode_insn l pc op rest) _ h in
    let a = decode_insn-IsAt l pc op rest info n decoded in
    next op rest (omega (arith, a.size, a.positive)) (
      rw a.size at (
        decode_loop-IsWhole l fuel (pc + info.size) (drop info.size (op ∷ rest)) _ _ d
          (omega (arith, length-drop info.size (op ∷ rest), a.inside)) more))

-- Code that `decode_function` accepts, with the limits of code of its length, is a row of whole
-- instructions, each as long as `decoded_instruction_size` says.
pub decode_function-IsWhole :
    (l : Limits) (code : Bytes) (d : Decoded)
    → length code ≡ l.n_code
    → decode_function l code ≡ some d
    → IsWhole code
unfolding decode_function
decode_function-IsWhole l code d n h =
    let (d', looped, checked) = >>=-eq-some _ _ h in
    decode_loop-IsWhole l (length code) 0 code [] _ d' (omega arith) looped
