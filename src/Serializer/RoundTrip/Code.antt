-- ===== src/Serializer/RoundTrip/Code.antt =====
-- bytecode_serializer.h: `expand_code` undoes `compact_code` on code that is a row of whole
-- instructions, and the compact form is no longer than the code.
use nari.Prelude.{
  ℕ, zero, suc, ◌+◌, ◌≤◌, ◌<◌, ◌≡◌, ap, ◌≢◌, ◌∙◌, arith, true, ◌&&◌, [], ◌∷◌, ◌++◌, append_assoc,
  append-nil, some, bit_or, length, length-append, length-take, length-drop, take, drop, get_or,
  take-append-drop, Bool-cases, inl, inr, ◌==◌,
}
use nari.Bytecode.Chunk.{Bytes}
use nari.Bytecode.OpcodeInfo.{decoded_instruction_size}
use nari.Serializer.Code.{
  has_compact_u16_alias, compact_loop, compact_code, max_code, expand_loop, expand_code,
}
use nari.Serializer.RoundTrip.Rounds.{
  IsWhole, done, next, decoded-expanded, opcode_info-lt, alias_operands, expand_alias, expand_copy,
  expanded_size-take, variable_operands, compact_alias, compact_copy,
}

-- What one instruction of size `s` becomes, and what the reader makes of that.
record IsRound (op : ℕ) (rest : Bytes) (s : ℕ) : Type 0 where
  short : s ≤ length (op ∷ rest)
  positive : 0 < s
  form : Bytes
  form_short : (length form ≤ s) × (0 < length form)
  written :
      (fuel : ℕ)
      → compact_loop (suc fuel) (op ∷ rest) ≡ form ++ compact_loop fuel (drop s (op ∷ rest))
  expanded :
      (fuel : ℕ) (tail out : Bytes)
      → length out + s ≤ max_code
      → expand_loop (suc fuel) (form ++ tail) out
        ≡ expand_loop fuel tail (out ++ take s (op ∷ rest))

take_three :
    (op : ℕ) (rest : Bytes)
    → get_or (op ∷ rest) 1 0 ≡ 0
    → 3 ≤ length (op ∷ rest)
    → op ∷ 0 ∷ get_or (op ∷ rest) 2 0 ∷ [] ≡ take 3 (op ∷ rest)
take_three op [] z h = absurd (omega arith)
take_three op (a ∷ []) z h = absurd (omega arith)
take_three op (a ∷ b ∷ rest) z h = cc

one-IsRound :
    (op : ℕ) (rest : Bytes)
    → decoded_instruction_size (op ∷ rest) ≢ 0
    → IsRound op rest (decoded_instruction_size (op ∷ rest))
one-IsRound op rest h =
    let (info, e, size, short, over, fixed) = decoded-expanded op rest h in
    let s : ℕ = decoded_instruction_size (op ∷ rest) in
    let small = opcode_info-lt op e in
    elim (Bool-cases (has_compact_u16_alias op && get_or (op ∷ rest) 1 0 == 0)) [
      | inl aliased ↦
          let parts : (has_compact_u16_alias op ≡ true) × (get_or (op ∷ rest) 1 0 ≡ 0) =
            ground arith in
          let (two, plain) = alias_operands op info e parts.0 in
          let three : s ≡ 3 = omega (arith, fixed plain) in
          record {
            short = short;
            positive = omega arith;
            form = bit_or op 0x80 ∷ get_or (op ∷ rest) 2 0 ∷ [];
            form_short = omega arith;
            written = λ fuel. compact_alias fuel op rest h parts.0 parts.1;
            expanded = λ fuel tail out fits.
                expand_alias fuel op (get_or (op ∷ rest) 2 0) tail out (omega arith) parts.0
                  (omega arith)
                ∙ ap (λ t. expand_loop fuel tail (out ++ t))
                    (rw three (take_three op rest parts.1 (omega arith)));
          }
      | inr copied ↦ record {
        short = short;
        positive = omega arith;
        form = take s (op ∷ rest);
        form_short = omega (arith, length-take s (op ∷ rest));
        written = λ fuel. compact_copy fuel op rest h copied;
        expanded = λ fuel tail out fits.
            expand_copy fuel op rest tail out info s e
              (expanded_size-take s (op ∷ rest) tail info.operand_size info.variable_size size
                (λ v. omega (arith, variable_operands op info e v)) short)
              short (omega arith) fits;
      }
    ]

pub expand_loop-compact_loop :
    {code : Bytes} (w : IsWhole code) (f1 f2 : ℕ) (out : Bytes)
    → length code ≤ f1
    → length (compact_loop f1 code) ≤ f2
    → length out + length code ≤ max_code
    → expand_loop f2 (compact_loop f1 code) out ≡ some (out ++ code)
expand_loop-compact_loop done f1 f2 out h1 h2 fits =
    unfold compact_loop expand_loop in rw append-nil
expand_loop-compact_loop (next op rest h w) zero f2 out h1 h2 fits = absurd (omega arith)
expand_loop-compact_loop (next op rest h w) (suc f1) zero out h1 h2 fits =
    let r = one-IsRound op rest h in
    let more = compact_loop f1 (drop (decoded_instruction_size (op ∷ rest)) (op ∷ rest)) in
    absurd (omega (arith, ap length (r.written f1), length-append r.form more, r.form_short))
expand_loop-compact_loop (next op rest h w) (suc f1) (suc f2) out h1 h2 fits =
    let s : ℕ = decoded_instruction_size (op ∷ rest) in
    let r = one-IsRound op rest h in
    let left : Bytes = drop s (op ∷ rest) in
    let cut = length-drop s (op ∷ rest) in
    let more = compact_loop f1 left in
    ap (λ t. expand_loop (suc f2) t out) (r.written f1)
    ∙ r.expanded f2 more out (omega (arith, r.short))
    ∙ expand_loop-compact_loop w f1 f2 (out ++ take s (op ∷ rest))
        (omega (arith, cut, r.positive, r.short))
        (omega (arith, ap length (r.written f1), length-append r.form more, r.form_short))
        (omega
          (arith, cut, r.short, length-append out (take s (op ∷ rest)), length-take s (op ∷ rest)))
    ∙ ap some (
        append_assoc out (take s (op ∷ rest)) left
        ∙ ap (λ t. out ++ t) (take-append-drop s (op ∷ rest)))

length-compact_loop :
    {code : Bytes} (w : IsWhole code) (fuel : ℕ)
    → length code ≤ fuel
    → length (compact_loop fuel code) ≤ length code
length-compact_loop done fuel h = unfold compact_loop in omega arith
length-compact_loop (next op rest h w) zero l = absurd (omega arith)
length-compact_loop (next op rest h w) (suc fuel) l =
    let s : ℕ = decoded_instruction_size (op ∷ rest) in
    let r = one-IsRound op rest h in
    omega (
      arith,
      ap length (r.written fuel),
      length-append r.form (compact_loop fuel (drop s (op ∷ rest))),
      length-drop s (op ∷ rest),
      length-compact_loop w fuel (omega (arith, length-drop s (op ∷ rest), r.positive, r.short)),
      r.form_short,
      r.short,
    )

-- For code of whole instructions, at most 2 ^ 26 bytes long, `expand_code` gives back the code that
-- `compact_code` was given, and the compact form is no longer than the code.
pub expand_code-compact_code :
    (code : Bytes)
    → IsWhole code
    → length code ≤ max_code
    → (expand_code (compact_code code) ≡ some code) × (length (compact_code code) ≤ length code)
expand_code-compact_code code w h = (
  unfold expand_code compact_code in
      expand_loop-compact_loop w (length code) _ [] (omega arith) (omega arith) (omega arith),
  unfold compact_code in length-compact_loop w (length code) (omega arith),
)
