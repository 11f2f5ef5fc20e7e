-- ===== src/Serializer/RoundTrip/Rounds.antt =====
-- bytecode_serializer.h: single rounds of the loops of `compact_code` and `expand_code`.
use nari.Prelude.{
  ℕ, zero, suc, ◌+◌, ◌-◌, ◌≤◌, ◌<◌, ◌≡◌, refl, ◌≢◌, arith, Bool, true, false, not, ◌&&◌, ◌||◌, [],
  ◌∷◌, ◌++◌, Option, some, none, bit_and, bit_or, length, length-append, length-take, take, drop,
  get_or, get_or-take, take-take_append, drop-take_append, get_elem?-lt-length, le→ltb,
  Option-cases, inl, inr, ◌==◌, all_below, all_below_at,
}
use nari.Prelude.Bits.{set_high_bit, low_seven, high_bit}
use nari.Bytecode.Chunk.{Bytes}
use nari.Bytecode.OpcodeInfo.{OpcodeInfo, opcode_table, opcode_info, decoded_instruction_size}
use nari.Serializer.Code.{has_compact_u16_alias, compact_loop, max_code, expanded_size, expand_loop}

-- Whole instructions, one after the other, up to the end.
pub data IsWhole : Bytes → Type 0 where
  done : IsWhole []
  next :
      (op : ℕ) (rest : Bytes)
      → decoded_instruction_size (op ∷ rest) ≢ 0
      → IsWhole (drop (decoded_instruction_size (op ∷ rest)) (op ∷ rest))
      → IsWhole (op ∷ rest)

-- No opcode has the high bit of a byte.
pub opcode_info-lt : (op : ℕ) {info : OpcodeInfo} → opcode_info op ≡ some info → op < 87
unfolding opcode_info
opcode_info-lt op h = get_elem?-lt-length opcode_table op h

abbrev is_plain_short : Option OpcodeInfo → Bool
is_plain_short none = false
is_plain_short (some info) = info.operand_size == 2 && not info.variable_size

alias_table :
    all_below 87 (λ op. not (has_compact_u16_alias op) || is_plain_short (opcode_info op)) ≡ true
unfolding all_below has_compact_u16_alias opcode_info
alias_table = refl

-- An instruction with an alias has a two-byte operand and no descriptors.
pub alias_operands :
    (op : ℕ) (info : OpcodeInfo)
    → opcode_info op ≡ some info
    → has_compact_u16_alias op ≡ true
    → (info.operand_size ≡ 2) × (info.variable_size ≡ false)
alias_operands op info e h =
    let t =
      all_below_at 87 (λ op. not (has_compact_u16_alias op) || is_plain_short (opcode_info op)) op
        alias_table (opcode_info-lt op e) in
    ground (arith, rw (e, h) at t)

-- The reader of compact code finds the size that the writer used.
pub decoded-expanded :
    (op : ℕ) (rest : Bytes)
    → decoded_instruction_size (op ∷ rest) ≢ 0
    → (info : OpcodeInfo) × (opcode_info op ≡ some info)
      × (expanded_size info.operand_size info.variable_size (op ∷ rest)
          ≡ some (decoded_instruction_size (op ∷ rest)))
      × (decoded_instruction_size (op ∷ rest) ≤ length (op ∷ rest))
      × (1 + info.operand_size ≤ decoded_instruction_size (op ∷ rest))
      × (info.variable_size ≡ false → decoded_instruction_size (op ∷ rest) ≡ 1 + info.operand_size)
unfolding decoded_instruction_size expanded_size
decoded-expanded op rest h = elim (Option-cases (opcode_info op)) [
  | inl e ↦ absurd (h (rw (e, decoded_instruction_size)))
  | inr (info, e) ↦ (info, e, ground arith, ground arith, ground arith, ground arith)
]

pub first_three :
    (xs : Bytes) → 3 ≤ length xs → xs ≡ get_or xs 0 0 ∷ get_or xs 1 0 ∷ get_or xs 2 0 ∷ drop 3 xs
first_three [] h = absurd (omega arith)
first_three (a ∷ []) h = absurd (omega arith)
first_three (a ∷ b ∷ []) h = absurd (omega arith)
first_three (a ∷ b ∷ c ∷ xs) h = refl

-- One round of `expand_loop` on a two-byte form.
pub expand_alias :
    (fuel op low : ℕ) (tail out : Bytes)
    → op < 128
    → has_compact_u16_alias op ≡ true
    → length out + 3 ≤ max_code
    → expand_loop (suc fuel) (bit_or op 0x80 ∷ low ∷ tail) out
      ≡ expand_loop fuel tail (out ++ (op ∷ 0 ∷ low ∷ []))
unfolding expand_loop
expand_alias fuel op low tail out h e fits =
    let as_op : bit_and (op + 128) 0x7f ≡ op = omega (arith, low_seven (op + 128)) in
    let high : bit_and (op + 128) 0x80 ≡ 128 = omega (arith, high_bit (op + 128)) in
    rw (set_high_bit op h, as_op, high, e) (ground arith)

-- One round of `expand_loop` on an instruction that was copied.
pub expand_copy :
    (fuel op : ℕ) (rest tail out : Bytes) (info : OpcodeInfo) (size : ℕ)
    → opcode_info op ≡ some info
    → expanded_size info.operand_size info.variable_size (take size (op ∷ rest) ++ tail) ≡ some size
    → size ≤ length (op ∷ rest)
    → 0 < size
    → length out + size ≤ max_code
    → expand_loop (suc fuel) (take size (op ∷ rest) ++ tail) out
      ≡ expand_loop fuel tail (out ++ take size (op ∷ rest))
unfolding expand_loop
expand_copy fuel op rest tail out info zero e s l p fits = absurd (omega arith)
expand_copy fuel op rest tail out info (suc n) e s l p fits =
    let small = opcode_info-lt op e in
    let high : bit_and op 0x80 ≡ 0 = omega (arith, high_bit op) in
    rw (
      high,
      e,
      s,
      le→ltb (max_code - suc n) (length out) (omega arith),
      take-take_append n rest tail (omega arith),
      drop-take_append n rest tail (omega arith),
    )

-- The size of an instruction is read from bytes inside it.
pub expanded_size-take :
    (size : ℕ) (code tail : Bytes) (operand_size : ℕ) (variable_size : Bool)
    → expanded_size operand_size variable_size code ≡ some size
    → (variable_size ≡ true → 5 ≤ size)
    → size ≤ length code
    → expanded_size operand_size variable_size (take size code ++ tail) ≡ some size
unfolding expanded_size
expanded_size-take size code tail operand_size variable_size e v l = ground (
  arith,
  length-append (take size code) tail,
  length-take size code,
  get_or-take size code tail 3 0,
  get_or-take size code tail 4 0,
)

variable_table :
    all_below 87 (λ op. elim (opcode_info op) [
      | none ↦ false
      | some info ↦ not info.variable_size || info.operand_size == 4
    ])
    ≡ true
unfolding all_below opcode_info
variable_table = refl

pub variable_operands :
    (op : ℕ) (info : OpcodeInfo)
    → opcode_info op ≡ some info
    → info.variable_size ≡ true
    → info.operand_size ≡ 4
variable_operands op info e v =
    let t = all_below_at 87 _ op variable_table (opcode_info-lt op e) in ground (arith, rw e at t)

-- One round of `compact_loop`, in its two forms.
pub compact_alias :
    (fuel op : ℕ) (rest : Bytes)
    → decoded_instruction_size (op ∷ rest) ≢ 0
    → has_compact_u16_alias op ≡ true
    → get_or (op ∷ rest) 1 0 ≡ 0
    → compact_loop (suc fuel) (op ∷ rest)
      ≡ bit_or op 0x80
        ∷ get_or (op ∷ rest) 2 0
        ∷ compact_loop fuel (drop (decoded_instruction_size (op ∷ rest)) (op ∷ rest))
unfolding compact_loop
compact_alias fuel op rest h a z = ground arith

pub compact_copy :
    (fuel op : ℕ) (rest : Bytes)
    → decoded_instruction_size (op ∷ rest) ≢ 0
    → (has_compact_u16_alias op && get_or (op ∷ rest) 1 0 == 0) ≡ false
    → compact_loop (suc fuel) (op ∷ rest)
      ≡ take (decoded_instruction_size (op ∷ rest)) (op ∷ rest)
        ++ compact_loop fuel (drop (decoded_instruction_size (op ∷ rest)) (op ∷ rest))
unfolding compact_loop
compact_copy fuel op rest h a = ground arith
