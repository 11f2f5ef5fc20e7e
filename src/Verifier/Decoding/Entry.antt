-- ===== src/Verifier/Decoding/Entry.antt =====
-- bytecode_verify.h: the first instruction that `decode_loop` makes is at position 0.
use nari.Prelude.{
  ℕ, zero, suc, ◌+◌, ◌<◌, ◌≡◌, ◌∙◌, arith, List, [], ◌∷◌, Option, some, none, length, length-drop,
  length-replicate, drop, replicate, >>=-eq-some,
}
use nari.Bytecode.Chunk.{Bytes}
use nari.Verifier.Insn.{InsnInfo}
use nari.Verifier.Flow.{Decoded, PcIndex, insn_at}
use nari.Verifier.Decode.{Limits, decode_insn, decode_loop, decode_function}
use nari.Verifier.Decoding.Passed.{decode_insn-IsAt}
use nari.Verifier.Decoding.Table.{insn_at-set_self, insn_at-set_ne}

-- What the index has below `pc` stays.
decode_loop-keeps :
    (l : Limits) (fuel pc : ℕ) (bytes : Bytes) (insns : List InsnInfo) (table : PcIndex)
    (d : Decoded) (q k : ℕ)
    → pc + length bytes ≡ l.n_code
    → decode_loop l fuel pc bytes insns table ≡ some d
    → q < pc
    → insn_at table q ≡ some k
    → insn_at d.pc_to_index q ≡ some k
unfolding decode_loop
decode_loop-keeps l fuel pc [] insns table d q k n h b e = ground arith
decode_loop-keeps l zero pc (op ∷ rest) insns table d q k n h b e = absurd (cc)
decode_loop-keeps l (suc fuel) pc (op ∷ rest) insns table d q k n h b e =
    let (info, decoded, more) = >>=-eq-some (decode_insn l pc op rest) _ h in
    let a = decode_insn-IsAt l pc op rest info n decoded in
    decode_loop-keeps l fuel (pc + info.size) (drop info.size (op ∷ rest)) _ _ d q k
      (omega (arith, length-drop info.size (op ∷ rest), a.inside)) more (omega arith)
      (insn_at-set_ne table pc q (length insns) (omega arith) ∙ e)

-- Code that is not empty has its first instruction at position 0.
pub decode_function-entry :
    (l : Limits) (op : ℕ) (rest : Bytes) (d : Decoded)
    → length (op ∷ rest) ≡ l.n_code
    → decode_function l (op ∷ rest) ≡ some d
    → insn_at d.pc_to_index 0 ≡ some 0
unfolding decode_function decode_loop
decode_function-entry l op rest d n h =
    let (d', looped, checked) = >>=-eq-some _ _ h in
    let (info, decoded, more) = >>=-eq-some (decode_insn l 0 op rest) _ looped in
    let a = decode_insn-IsAt l 0 op rest info (omega (arith, n)) decoded in
    let same : d' ≡ d = ground arith in
    rw same at (
      decode_loop-keeps l (length rest) (0 + info.size) (drop info.size (op ∷ rest)) _ _ d' 0 0
        (omega (arith, length-drop info.size (op ∷ rest), a.inside)) more
        (omega (arith, a.positive))
        (insn_at-set_self (replicate (length (op ∷ rest)) none) 0 0
          (omega (arith, length-replicate {A = Option ℕ} (length (op ∷ rest)) none))))
