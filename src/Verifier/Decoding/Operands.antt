-- ===== src/Verifier/Decoding/Operands.antt =====
-- bytecode_verify.h: what the interpreter of bytecode.cpp takes from the tables of the function and
-- of its chunk without a test of its own is there, in code that the decoder accepts.
use nari.Prelude.{
  ℕ, zero, suc, ◌+◌, ◌*◌, ◌<◌, ◌≡◌, ◌≢◌, sym, ◌∙◌, arith, true, false, ◌==◌, refl, inl, inr, [],
  ◌∷◌, some, length, get_elem?, get_or, drop, drop-add, is_one_of, ltb→lt,
}
use nari.Bytecode.Chunk.{Bytes}
use nari.Bytecode.OpCode
use nari.Verifier.Insn.{InsnInfo, read_u16_be}
use nari.Verifier.Flow.{Decoded}
use nari.Verifier.Decode.{
  Limits, is_capture, check_captures, operands_fit, decode_insn, decode_function,
}
use nari.Verifier.Decoding.Passed.{blank_insn, decode_insn-Passed, check_closure-eq-some}
use nari.Verifier.Decoding.Table.{decode_function-IsTable}

pub data Table : Type 0 where
  constants locals captures strings functions : Table

-- How many entries a table has.
abbrev pub table_size : Limits → Table → ℕ
table_size l constants = l.n_consts
table_size l locals = l.n_locals
table_size l captures = l.n_caps
table_size l strings = l.n_strs
table_size l functions = l.n_funcs

-- The capture descriptor `k` of MAKE_CLOSURE: a source, and an index of two bytes.
abbrev pub descriptor : Bytes → ℕ → Bytes
descriptor rest k = drop (k * 3) (drop 4 rest)

-- The instruction with the opcode `op` and the bytes `rest` behind it takes the entry at an index of a
-- table.
pub data Uses (op : ℕ) (rest : Bytes) : Table → ℕ → Type 0 where
  constant : op ≡ OpCode.op_load_const → Uses op rest constants (read_u16_be rest 0)
  variable_slot :
      is_one_of op (OpCode.op_load_var ∷ OpCode.op_store_var ∷ OpCode.op_str_append_var ∷ []) ≡ true
      → Uses op rest locals (read_u16_be rest 0)
  capture_cell :
      is_one_of op (OpCode.op_load_capture ∷ OpCode.op_store_capture ∷ []) ≡ true
      → Uses op rest captures (read_u16_be rest 0)
  global_name :
      is_one_of op
          (OpCode.op_load_global ∷ OpCode.op_store_global ∷ OpCode.op_str_append_global ∷ [])
        ≡ true
      → Uses op rest strings (read_u16_be rest 0)
  property_name :
      is_one_of op (
          OpCode.op_object_set ∷ OpCode.op_get_property ∷ OpCode.op_set_property
          ∷ OpCode.op_js_get_prop_static ∷ OpCode.op_js_set_prop_static ∷ OpCode.op_js_postinc ∷ [])
        ≡ true
      → Uses op rest strings (read_u16_be rest 0)
  -- The name of the called function, behind the number of arguments.
  called_name : op ≡ OpCode.op_call → Uses op rest strings (read_u16_be rest 1)
  spread_name : op ≡ OpCode.op_call_spread → Uses op rest strings (read_u16_be rest 0)
  class_name : op ≡ OpCode.op_new_instance → Uses op rest strings (read_u16_be rest 0)
  method_name : op ≡ OpCode.op_call_method → Uses op rest strings (read_u16_be rest 0)
  type_name : op ≡ OpCode.op_check_type → Uses op rest strings (read_u16_be rest 0)
  regex_pattern : op ≡ OpCode.op_make_regex → Uses op rest strings (read_u16_be rest 0)
  regex_flags : op ≡ OpCode.op_make_regex → Uses op rest strings (read_u16_be rest 2)
  closure_body : op ≡ OpCode.op_make_closure → Uses op rest functions (read_u16_be rest 0)
  captured_local :
      (k : ℕ)
      → op ≡ OpCode.op_make_closure
      → k < read_u16_be rest 2
      → get_or (descriptor rest k) 0 0 ≡ 0
      → Uses op rest locals (read_u16_be (descriptor rest k) 1)
  captured_capture :
      (k : ℕ)
      → op ≡ OpCode.op_make_closure
      → k < read_u16_be rest 2
      → get_or (descriptor rest k) 0 0 ≡ 1
      → Uses op rest captures (read_u16_be (descriptor rest k) 1)
  captured_global :
      (k : ℕ)
      → op ≡ OpCode.op_make_closure
      → k < read_u16_be rest 2
      → get_or (descriptor rest k) 0 0 ≢ 0
      → get_or (descriptor rest k) 0 0 ≢ 1
      → Uses op rest strings (read_u16_be (descriptor rest k) 1)

check_captures-descriptor :
    (l : Limits) (count : ℕ) (p : Bytes) (k : ℕ)
    → check_captures l count p ≡ true
    → k < count
    → is_capture l (get_or (drop (k * 3) p) 0 0) (read_u16_be (drop (k * 3) p) 1) ≡ true
unfolding check_captures
check_captures-descriptor l zero p k h below = absurd (omega arith)
check_captures-descriptor l (suc count) p zero h below = ground arith
check_captures-descriptor l (suc count) p (suc k) h below =
    let three : suc k * 3 ≡ 3 + k * 3 = omega arith in
    rw (three, drop-add 3 (k * 3) p)
      (check_captures-descriptor l count (drop 3 p) k (ground arith) (omega arith))

-- What the decoder asks of the instructions but MAKE_CLOSURE.
plain-Uses :
    (l : Limits) (op pc : ℕ) (rest : Bytes) (t : Table) (n : ℕ)
    → op ≢ OpCode.op_make_closure
    → operands_fit l op pc rest ≡ true
    → Uses op rest t n
    → n < table_size l t
unfolding operands_fit
plain-Uses l op pc rest t n other h (constant e) = ltb→lt _ _ (rw (e, operands_fit) at h)
plain-Uses l op pc rest t n other h (variable_slot e) = ltb→lt _ _ (ground arith)
plain-Uses l op pc rest t n other h (capture_cell e) = ltb→lt _ _ (ground arith)
plain-Uses l op pc rest t n other h (global_name e) = ltb→lt _ _ (ground arith)
plain-Uses l op pc rest t n other h (property_name e) = ltb→lt _ _ (ground arith)
plain-Uses l op pc rest t n other h (called_name e) = ltb→lt _ _ (rw (e, operands_fit) at h)
plain-Uses l op pc rest t n other h (spread_name e) = ltb→lt _ _ (rw (e, operands_fit) at h)
plain-Uses l op pc rest t n other h (class_name e) = ltb→lt _ _ (rw (e, operands_fit) at h)
plain-Uses l op pc rest t n other h (method_name e) = ltb→lt _ _ (rw (e, operands_fit) at h)
plain-Uses l op pc rest t n other h (type_name e) = ground (arith, rw (e, operands_fit) at h)
plain-Uses l op pc rest t n other h (regex_pattern e) = ground (arith, rw (e, operands_fit) at h)
plain-Uses l op pc rest t n other h (regex_flags e) = ground (arith, rw (e, operands_fit) at h)
plain-Uses l op pc rest t n other h (closure_body e) = absurd (other e)
plain-Uses l op pc rest t n other h (captured_local _ e _ _) = absurd (other e)
plain-Uses l op pc rest t n other h (captured_capture _ e _ _) = absurd (other e)
plain-Uses l op pc rest t n other h (captured_global _ e _ _ _) = absurd (other e)

captured_string :
    (l : Limits) (source cidx : ℕ)
    → is_capture l source cidx ≡ true
    → source ≢ 0
    → source ≢ 1
    → cidx < l.n_strs
captured_string l source cidx ok not_local not_capture = ground arith

not_closure : (op : ℕ) → (OpCode.op_make_closure == op) ≡ false → OpCode.op_make_closure ≢ op
not_closure op e same = cc (rw (← same) at e)

-- What it asks of MAKE_CLOSURE.
closure-Uses :
    (l : Limits) (op : ℕ) (rest : Bytes) (t : Table) (n : ℕ)
    → op ≡ OpCode.op_make_closure
    → read_u16_be rest 0 < l.n_funcs
    → check_captures l (read_u16_be rest 2) (drop 4 rest) ≡ true
    → Uses op rest t n
    → n < table_size l t
closure-Uses l op rest t n is_it f c (closure_body e) = f
closure-Uses l op rest t n is_it f c (captured_local k e below source) =
    let ok = check_captures-descriptor l (read_u16_be rest 2) (drop 4 rest) k c below in
    ltb→lt _ _ (rw source at ok)
closure-Uses l op rest t n is_it f c (captured_capture k e below source) =
    let ok = check_captures-descriptor l (read_u16_be rest 2) (drop 4 rest) k c below in
    ltb→lt _ _ (rw source at ok)
closure-Uses l op rest t n is_it f c (captured_global k e below not_local not_capture) =
    let ok = check_captures-descriptor l (read_u16_be rest 2) (drop 4 rest) k c below in
    captured_string l _ _ ok not_local not_capture
closure-Uses l op rest t n is_it f c (constant e) =
    absurd (not_closure OpCode.op_load_const refl (sym is_it ∙ e))
closure-Uses l op rest t n is_it f c (variable_slot e) = absurd (cc (rw is_it at e))
closure-Uses l op rest t n is_it f c (capture_cell e) = absurd (cc (rw is_it at e))
closure-Uses l op rest t n is_it f c (global_name e) = absurd (cc (rw is_it at e))
closure-Uses l op rest t n is_it f c (property_name e) = absurd (cc (rw is_it at e))
closure-Uses l op rest t n is_it f c (called_name e) =
    absurd (not_closure OpCode.op_call refl (sym is_it ∙ e))
closure-Uses l op rest t n is_it f c (spread_name e) =
    absurd (not_closure OpCode.op_call_spread refl (sym is_it ∙ e))
closure-Uses l op rest t n is_it f c (class_name e) =
    absurd (not_closure OpCode.op_new_instance refl (sym is_it ∙ e))
closure-Uses l op rest t n is_it f c (method_name e) =
    absurd (not_closure OpCode.op_call_method refl (sym is_it ∙ e))
closure-Uses l op rest t n is_it f c (type_name e) =
    absurd (not_closure OpCode.op_check_type refl (sym is_it ∙ e))
closure-Uses l op rest t n is_it f c (regex_pattern e) =
    absurd (not_closure OpCode.op_make_regex refl (sym is_it ∙ e))
closure-Uses l op rest t n is_it f c (regex_flags e) =
    absurd (not_closure OpCode.op_make_regex refl (sym is_it ∙ e))

decode_insn-Uses :
    (l : Limits) (pc op : ℕ) (rest : Bytes) (i : InsnInfo)
    → decode_insn l pc op rest ≡ some i
    → (t : Table) (n : ℕ) → Uses op rest t n
    → n < table_size l t
decode_insn-Uses l pc op rest i h t n u =
    let p = decode_insn-Passed l pc op rest i h in
    elim p.checked [
      | inl (closure, checked) ↦
          let (f, _, c, _) = check_closure-eq-some l (blank_insn pc op 1) i rest checked in
          closure-Uses l op rest t n closure f c u
      | inr (other, fits, _) ↦ plain-Uses l op (pc + 1) rest t n other fits u
    ]

-- Let `decode_function` accept `code` as `d`, with the limits of code of that length, and let an
-- instruction of `d` stand at the opcode `op` with the bytes `rest` behind it. Then every index at
-- which that instruction takes an entry of a table (constants, locals, captures, strings or
-- functions; for MAKE_CLOSURE also those of its capture descriptors) is within the table.
pub decode_function-Uses :
    (l : Limits) (code : Bytes) (d : Decoded)
    → length code ≡ l.n_code
    → decode_function l code ≡ some d
    → (k : ℕ) (i : InsnInfo) → get_elem? d.insns k ≡ some i
    → (op : ℕ) (rest : Bytes) → drop i.pc code ≡ op ∷ rest
    → (t : Table) (index : ℕ) → Uses op rest t index
    → index < table_size l t
decode_function-Uses l code d n h k i found op rest here t index u =
    let (table, _, _) = decode_function-IsTable l code d n h in
    let source = (table.entries k i found).source in
    let both : source.op ∷ source.rest ≡ op ∷ rest = sym source.here ∙ here in
    let same_op : source.op ≡ op = ground arith in
    let same_rest : source.rest ≡ rest = ground arith in
    decode_insn-Uses l i.pc op rest i (rw (← same_op, ← same_rest) source.decoded) t index u
