-- ===== src/Verifier/Decoding/Table.antt =====
-- bytecode_verify.h: after `decode_loop` the list of instructions and the index by position agree,
-- and each instruction is what `decode_insn` makes of the bytes at its position.
use nari.Prelude.{
  ℕ, zero, suc, ◌+◌, ◌<◌, ◌≡◌, refl, sym, ap, ◌∙◌, ◌≢◌, arith, true, List, [], ◌∷◌, ◌++◌, some,
  none, length, length-drop, length-set, length-replicate, drop, drop-add, set, replicate,
  get_elem?, get_elem?-append_left, get_elem?-append_length, get_elem?-concat, get_elem?-set_self,
  get_elem?-set_ne, get_elem?-lt-length, Bool-cases, inl, inr, >>=-eq-some, guard, guard-eq-some,
  ◌==◌, ==→eq, ==→ne,
}
use nari.Bytecode.Chunk.{Bytes}
use nari.Verifier.Insn.{InsnInfo}
use nari.Verifier.Flow.{Decoded, PcIndex, insn_at}
use nari.Verifier.Decode.{Limits, decode_insn, decode_loop, check_boundaries, decode_function}
use nari.Verifier.Decoding.Passed.{IsAt, decode_insn-IsAt}

-- `i` is what the decoder makes of the bytes of `code` at its position.
pub record IsDecodedFrom (l : Limits) (code : Bytes) (i : InsnInfo) : Type 0 where
  pub op : ℕ
  pub rest : Bytes
  pub here : drop i.pc code ≡ op ∷ rest
  pub decoded : decode_insn l i.pc op rest ≡ some i
  pub located : IsAt i.pc op rest i

pub record IsEntry (l : Limits) (code : Bytes) (table : PcIndex) (pc k : ℕ) (i : InsnInfo)
    : Type 0 where
  pub before : i.pc < pc
  pub indexed : insn_at table i.pc ≡ some k
  pub source : IsDecodedFrom l code i

-- What holds when the loop has come to `pc`.
pub record IsTable (l : Limits) (code : Bytes) (pc : ℕ) (insns : List InsnInfo) (table : PcIndex)
    : Type 0 where
  pub size : length table ≡ length code
  pub entries : (k : ℕ) (i : InsnInfo) → get_elem? insns k ≡ some i → IsEntry l code table pc k i
  pub positions :
      (q k : ℕ)
      → insn_at table q ≡ some k
      → (i : InsnInfo) × (get_elem? insns k ≡ some i) × (i.pc ≡ q)

pub insn_at-set_self :
    (table : PcIndex) (p v : ℕ) → p < length table → insn_at (set table p (some v)) p ≡ some v
insn_at-set_self table p v h = rw (get_elem?-set_self table p (some v) h)

pub insn_at-set_ne :
    (table : PcIndex) (p q v : ℕ) → p ≢ q → insn_at (set table p (some v)) q ≡ insn_at table q
insn_at-set_ne table p q v h = rw (get_elem?-set_ne table p q (some v) h)

module _ (l : Limits) (code : Bytes) (insns : List InsnInfo) (table : PcIndex)
    (info : InsnInfo) where
  abbrev new_insns : List InsnInfo
  new_insns = insns ++ info ∷ []

  abbrev new_table : PcIndex
  new_table = set table info.pc (some (length insns))

  new-IsEntry :
      IsTable l code info.pc insns table
      → info.pc < length code
      → IsDecodedFrom l code info
      → 0 < info.size
      → (k : ℕ) (i : InsnInfo) → get_elem? new_insns k ≡ some i
      → IsEntry l code new_table (info.pc + info.size) k i
  new-IsEntry t inside source positive k i h = elim (get_elem?-concat insns info k h) [
    | inl old ↦
        let entry = t.entries k i old in
        record {
          before = omega (arith, entry.before);
          indexed =
              insn_at-set_ne table info.pc i.pc (length insns) (omega (arith, entry.before))
              ∙ entry.indexed;
          source = entry.source;
        }
    | inr (last, same) ↦
        rw (last, same)
          (record {
            before = omega arith;
            indexed = insn_at-set_self table info.pc (length insns) (omega (arith, t.size));
            source = source;
          })
  ]

  new_position :
      IsTable l code info.pc insns table
      → info.pc < length code
      → (q k : ℕ) → insn_at new_table q ≡ some k
      → (i : InsnInfo) × (get_elem? new_insns k ≡ some i) × (i.pc ≡ q)
  new_position t inside q k h = elim (Bool-cases (info.pc == q)) [
    | inl here ↦
        let same = ==→eq info.pc q here in
        let at_last = insn_at-set_self table info.pc (length insns) (omega (arith, t.size)) in
        let last : length insns ≡ k = cc in
        (info, rw (← last) (get_elem?-append_length insns info []), same)
    | inr there ↦
        let old = insn_at-set_ne table info.pc q (length insns) (==→ne info.pc q there) in
        let (i, found, at_q) = t.positions q k (sym old ∙ h) in
        (
          i,
          get_elem?-append_left insns (info ∷ []) k (get_elem?-lt-length insns k found) ∙ found,
          at_q,
        )
  ]

  IsTable-step :
      IsTable l code info.pc insns table
      → info.pc < length code
      → IsDecodedFrom l code info
      → 0 < info.size
      → IsTable l code (info.pc + info.size) new_insns new_table
  IsTable-step t inside source positive = record {
    size = length-set table info.pc (some (length insns)) ∙ t.size;
    entries = new-IsEntry t inside source positive;
    positions = new_position t inside;
  }

IsTable-start : (l : Limits) (code : Bytes) → IsTable l code 0 [] (replicate (length code) none)
IsTable-start l code = record {
  size = length-replicate (length code) none;
  entries = λ k i h. absurd (cc);
  positions = λ q k h. absurd (blank (length code) q h);
}
  where
    blank : (n q : ℕ) {k : ℕ} → insn_at (replicate n none) q ≡ some k → ⊥
    blank zero q h = cc
    blank (suc n) zero h = cc
    blank (suc n) (suc q) h = blank n q h

-- The loop keeps the table, and ends at the end of the code.
decode_loop-IsTable :
    (l : Limits) (code : Bytes) (fuel pc : ℕ) (bytes : Bytes) (insns : List InsnInfo)
    (table : PcIndex) (d : Decoded)
    → length code ≡ l.n_code
    → pc + length bytes ≡ length code
    → drop pc code ≡ bytes
    → IsTable l code pc insns table
    → decode_loop l fuel pc bytes insns table ≡ some d
    → IsTable l code (length code) d.insns d.pc_to_index × (d.code_size ≡ length code)
unfolding decode_loop
decode_loop-IsTable l code fuel pc [] insns table d n e at' t h =
    let end : pc ≡ length code = omega arith in
    let parts : (insns ≡ d.insns) × (table ≡ d.pc_to_index) × (d.code_size ≡ l.n_code) =
      ground arith in
    (rw (← parts.0, ← parts.1) (rw end at t), parts.2 ∙ sym n)
decode_loop-IsTable l code zero pc (op ∷ rest) insns table d n e at' t h = absurd (cc)
decode_loop-IsTable l code (suc fuel) pc (op ∷ rest) insns table d n e at' t h =
    let (info, decoded, more) = >>=-eq-some (decode_insn l pc op rest) _ h in
    let located = decode_insn-IsAt l pc op rest info (omega arith) decoded in
    let p = located.pc_here in
    let source : IsDecodedFrom l code info = record {
      op = op;
      rest = rest;
      here = rw p at';
      decoded = rw p decoded;
      located = rw p located;
    } in
    let inside : info.pc < length code = omega (arith, p) in
    let next =
      IsTable-step l code insns table info (rw (← p) at t) inside source located.positive in
    decode_loop-IsTable l code fuel (pc + info.size) (drop info.size (op ∷ rest)) _ _ d n
      (omega (arith, length-drop info.size (op ∷ rest), located.inside))
      (drop-add pc info.size code ∙ ap (drop info.size) at') (rw p at next) more

-- Let `decode_function` accept `code` as `d`, with the limits of code of that length. Then each
-- instruction of `d` is at the position, and has the bytes, that it was decoded from, the index by
-- position and the list of instructions are inverse to one another, the size is that of the code, and
-- all jump targets are instruction boundaries.
pub decode_function-IsTable :
    (l : Limits) (code : Bytes) (d : Decoded)
    → length code ≡ l.n_code
    → decode_function l code ≡ some d
    → IsTable l code (length code) d.insns d.pc_to_index
      × (d.code_size ≡ length code)
      × (check_boundaries d d.insns ≡ true)
unfolding decode_function
decode_function-IsTable l code d n h =
    let (d', looped, checked) = >>=-eq-some _ _ h in
    let (u, boundaries, same) = >>=-eq-some (guard (check_boundaries d' d'.insns)) _ checked in
    let start = IsTable-start l code in
    let (table, size) =
      decode_loop-IsTable l code (length code) 0 code [] _ d' n (omega arith) refl start looped in
    let is_d : d' ≡ d = cc in rw (← is_d) (table, size, guard-eq-some _ boundaries)
