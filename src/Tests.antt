-- ===== src/Tests.antt =====
-- Tests on a chunk with a for-each loop, and the instances of the theorems at it.
pub mod Inlining
pub mod Lexing
pub mod Collecting
pub mod Arithmetic
use nari.Prelude.{
  drop, ℕ, ◌+◌, ◌≡◌, ◌≢◌, ◌<◌, ◌≤◌, refl, arith, true, false, List, [], ◌∷◌, ◌++◌, Option, some,
  none, length, get_elem?-lt-length,
}
use nari.Prelude.Int.{ℤ, pos, negsuc}
use nari.Bytecode.Chunk.{Bytes, Constant, FunctionMeta, JitInlineKind, Chunk}
use nari.Bytecode.OpcodeInfo.{opcode_operand_size, opcode_info, decoded_instruction_size}
use nari.Serializer.Write.{write_varuint, write_varint, write_string}
use nari.Serializer.Read.{read_varuint, read_varint, read_string}
use nari.Serializer.Code.{
  compact_code, compact_loop, has_compact_u16_alias, has_two_operand_bytes, expand_code,
}
use nari.Serializer.Emit.{serialize, write_body}
use nari.Serializer.Parse.{read_body}
use nari.Serializer.Storable.{IsStorable, IsStorableFunction, loaded_chunk}
use nari.Serializer.RoundTrip.Rounds.{IsWhole}
use nari.Serializer.RoundTrip.Numbers.{
  read_varuint-write_varuint, read_varint-write_varint, read_string-write_string,
}
use nari.Serializer.RoundTrip.Code.{expand_code-compact_code}
use nari.Serializer.RoundTrip.Chunks.{read_body-write_body}
use nari.Serializer.Load.{ok, deserialize, deserialize-serialize, deserialize-verify}
use nari.Verifier.Insn.{
  InsnInfo, read_u16_be, read_i16_be, jump_target_after_operand, to_size, stack_effect,
}
use nari.Verifier.Decode.{
  Limits, decode_function, decode_loop, decode_insn, operands_fit, with_operands, check_closure,
  check_captures, check_boundaries, check_boundary,
}
use nari.Verifier.Flow.{
  Decoded, accepted, out_of_fuel, insn_at, record_height, add_successor, add_successors,
  iterator_arrivals, handler_arrival, plain_arrivals, arrivals, visit, flow_loop, flow_start,
  verify_stack_flow,
}
use nari.Verifier.Verify.{
  limits, check_constant, check_constants, verify_function, verify_functions, verify,
}
use nari.Verifier.Decoding.Table.{IsTable, decode_function-IsTable}
use nari.Verifier.Decoding.Operands.{constants, table_size, constant, decode_function-Uses}
use nari.Verifier.Decoding.Tiles.{decode_function-IsWhole}
use nari.Verifier.Fixpoint.Result.{
  IsClosed, verify_stack_flow-ne-out_of_fuel, verify_stack_flow-IsClosed,
}
use nari.Vm.Control.{running, Reach, setup_try}
use nari.Vm.Gaps.{iterator-jump_if_true, setup_try-jump_target}

-- 0 LOAD_CONST, 3 LOAD_CONST, 6 ITER_NEXT, 7 JUMP_IF_FALSE 14, 10 POP, 11 JUMP 6, 14 POP, 15 POP
abbrev loop_code : Bytes
loop_code = 0 ∷ 0 ∷ 0 ∷ 0 ∷ 0 ∷ 0 ∷ 58 ∷ 36 ∷ 0 ∷ 4 ∷ 5 ∷ 35 ∷ 255 ∷ 248 ∷ 5 ∷ 5 ∷ []

abbrev loop_function : FunctionMeta
loop_function = record {
  self_idx = 0;
  name = 102 ∷ [];
  source_file = [];
  code = loop_code;
  constants = Constant.int (pos 7) ∷ Constant.string 0 ∷ [];
  var_names = [];
  line_map = [];
  param_count = 0;
  capture_count = 0;
  rest_param_index = negsuc 0;
  is_lambda = false;
  js_undefined_params = false;
  strict_mode = false;
  return_vt = pos 0;
  jit_inline_kind = JitInlineKind.none;
  jit_inline_imm = pos 0;
}

abbrev loop_chunk : Chunk
loop_chunk = record {
  functions = loop_function ∷ [];
  strings = (104 ∷ 105 ∷ []) ∷ [];
  types = [];
  main_func_idx = 0;
}

loop_chunk-verify : verify false loop_chunk ≡ true
unfolding verify verify_functions verify_function limits check_constants check_constant
    decode_function decode_loop decode_insn operands_fit with_operands check_closure check_captures
    check_boundaries check_boundary opcode_operand_size read_u16_be read_i16_be
    jump_target_after_operand stack_effect record_height add_successor add_successors
    iterator_arrivals handler_arrival plain_arrivals arrivals visit flow_loop flow_start
    verify_stack_flow
loop_chunk-verify = refl

-- The instruction at `pc` with its opcode, size, 16-bit operand and jump offset.
abbrev insn : ℕ → ℕ → ℕ → ℤ → InsnInfo
insn pc op size offset = record {
  pc = pc;
  op = op;
  operand_pc = pc + 1;
  size = size;
  jump_a = offset;
  jump_b = pos 0;
  u16_a = 0;
  u8_a = 0;
}

abbrev loop_decoded : Decoded
loop_decoded = record {
  insns =
      insn 0 0 3 (pos 0)
      ∷ insn 3 0 3 (pos 0)
      ∷ insn 6 58 1 (pos 0)
      ∷ insn 7 36 3 (pos 4)
      ∷ insn 10 5 1 (pos 0)
      ∷ insn 11 35 3 (negsuc 7)
      ∷ insn 14 5 1 (pos 0)
      ∷ insn 15 5 1 (pos 0)
      ∷ [];
  pc_to_index =
      some 0
      ∷ none
      ∷ none
      ∷ some 1
      ∷ none
      ∷ none
      ∷ some 2
      ∷ some 3
      ∷ none
      ∷ none
      ∷ some 4
      ∷ some 5
      ∷ none
      ∷ none
      ∷ some 6
      ∷ some 7
      ∷ [];
  code_size = 16;
}

abbrev loop_heights : List (Option ℕ)
loop_heights = some 0 ∷ some 1 ∷ some 2 ∷ none ∷ some 3 ∷ some 2 ∷ some 2 ∷ some 1 ∷ []

abbrev loop_limits : Limits
loop_limits = record {
  n_code = 16;
  n_consts = 2;
  n_locals = 0;
  n_caps = 0;
  n_strs = 1;
  n_funcs = 1;
  extended_jsrt = false;
}

loop_decodes : decode_function loop_limits loop_code ≡ some loop_decoded
unfolding decode_function decode_loop decode_insn operands_fit with_operands check_closure
    check_captures check_boundaries check_boundary opcode_operand_size read_u16_be read_i16_be
    jump_target_after_operand
loop_decodes = refl

loop_flows : verify_stack_flow loop_decoded ≡ accepted loop_heights
unfolding read_u16_be read_i16_be jump_target_after_operand stack_effect record_height add_successor
    add_successors iterator_arrivals handler_arrival plain_arrivals arrivals visit flow_loop
    flow_start verify_stack_flow
loop_flows = refl

loop_function-IsStorable : IsStorableFunction 1 loop_function
loop_function-IsStorable = record {
  name = omega arith;
  param_count = omega arith;
  capture_count = omega arith;
  rest_param_index = (omega arith, omega arith);
  var_count = omega arith;
  var_names = tt;
  const_count = omega arith;
  constants = (refl, ((omega arith, omega arith), tt));
  code_length = omega arith;
}

loop_chunk-IsStorable : IsStorable loop_chunk
loop_chunk-IsStorable = record {
  string_count = omega arith;
  strings = (omega arith, tt);
  func_count = omega arith;
  functions = (loop_function-IsStorable, tt);
  main_func_idx = omega arith;
  type_count = omega arith;
  types = tt;
}

deserialize-serialize_example :
    deserialize (λ n. 0) false (serialize loop_chunk) ≡ ok (loaded_chunk loop_chunk)
deserialize-serialize_example =
    deserialize-serialize (λ n. 0) false loop_chunk loop_chunk-IsStorable loop_chunk-verify

deserialize-verify_example : verify false (loaded_chunk loop_chunk) ≡ true
deserialize-verify_example =
    deserialize-verify (λ n. 0) false (serialize loop_chunk) (loaded_chunk loop_chunk)
      deserialize-serialize_example

loop_code-IsWhole : IsWhole loop_code
loop_code-IsWhole = decode_function-IsWhole loop_limits loop_code loop_decoded refl loop_decodes

decode_function-IsWhole_example : IsWhole loop_code
decode_function-IsWhole_example =
    decode_function-IsWhole loop_limits loop_code loop_decoded refl loop_decodes

decode_function-IsTable_example :
    IsTable loop_limits loop_code 16 loop_decoded.insns loop_decoded.pc_to_index
    × (loop_decoded.code_size ≡ 16)
    × (check_boundaries loop_decoded loop_decoded.insns ≡ true)
decode_function-IsTable_example =
    decode_function-IsTable loop_limits loop_code loop_decoded refl loop_decodes

loop_valid : (q k : ℕ) → insn_at loop_decoded.pc_to_index q ≡ some k → k < 8
loop_valid q k h =
    let t = decode_function-IsTable loop_limits loop_code loop_decoded refl loop_decodes in
    let (i, found, _) = t.0.positions q k h in get_elem?-lt-length loop_decoded.insns k found

verify_stack_flow-ne-out_of_fuel_example : verify_stack_flow loop_decoded ≢ out_of_fuel
verify_stack_flow-ne-out_of_fuel_example = verify_stack_flow-ne-out_of_fuel loop_decoded loop_valid

expand_code-compact_code_example :
    (expand_code (compact_code loop_code) ≡ some loop_code)
    × (length (compact_code loop_code) ≤ length loop_code)
expand_code-compact_code_example =
    expand_code-compact_code loop_code loop_code-IsWhole (omega arith)

-- Each LOAD_CONST loses a byte.
compact_loop_code :
    compact_code loop_code ≡ 128 ∷ 0 ∷ 128 ∷ 0 ∷ 58 ∷ 36 ∷ 0 ∷ 4 ∷ 5 ∷ 35 ∷ 255 ∷ 248 ∷ 5 ∷ 5 ∷ []
unfolding compact_code compact_loop has_compact_u16_alias has_two_operand_bytes
    decoded_instruction_size opcode_info
compact_loop_code = refl

read_varuint-write_varuint_example : read_varuint (write_varuint 300 ++ 7 ∷ []) ≡ some (300, 7 ∷ [])
read_varuint-write_varuint_example = read_varuint-write_varuint 300 (7 ∷ []) (omega arith)

read_varint-write_varint_example :
    read_varint (write_varint (negsuc 200) ++ 7 ∷ []) ≡ some (negsuc 200, 7 ∷ [])
read_varint-write_varint_example =
    read_varint-write_varint (negsuc 200) (7 ∷ []) (omega arith, omega arith)

read_string-write_string_example :
    read_string (write_string (104 ∷ 105 ∷ []) ++ 7 ∷ []) ≡ some (104 ∷ 105 ∷ [], 7 ∷ [])
read_string-write_string_example = read_string-write_string (104 ∷ 105 ∷ []) (7 ∷ []) (omega arith)

-- ITER_NEXT, JUMP_IF_TRUE 4
abbrev gap_decoded : Decoded
gap_decoded = record {
  insns = insn 0 58 1 (pos 0) ∷ insn 1 37 3 (pos 0) ∷ [];
  pc_to_index = some 0 ∷ some 1 ∷ none ∷ none ∷ [];
  code_size = 4;
}

iterator-jump_if_true_example :
    Reach (58 ∷ 37 ∷ 0 ∷ 0 ∷ []) (running 0 2) (running 4 2)
    × (arrivals gap_decoded 0 (insn 0 58 1 (pos 0)) 2 ≡ some ((4, 2) ∷ (4, 3) ∷ []))
unfolding jump_target_after_operand
iterator-jump_if_true_example =
    iterator-jump_if_true (58 ∷ 37 ∷ 0 ∷ 0 ∷ []) 0 58 2 (0 ∷ 0 ∷ []) refl refl (omega arith)
      gap_decoded 0 (insn 0 58 1 (pos 0)) (insn 1 37 3 (pos 0)) refl refl refl refl refl refl

nine : jump_target_after_operand 1 4 (read_i16_be (0 ∷ 4 ∷ 0 ∷ 9 ∷ []) 0) ≡ pos 9
unfolding jump_target_after_operand read_i16_be read_u16_be
nine = refl

setup_try-jump_target_example :
    ((setup_try 0 (0 ∷ 4 ∷ 0 ∷ 9 ∷ []) 0).catch_ip ≡ 7)
    × ((setup_try 0 (0 ∷ 4 ∷ 0 ∷ 9 ∷ []) 0).finally_ip
        ≡ to_size (jump_target_after_operand (0 + 1) 4 (read_i16_be (0 ∷ 4 ∷ 0 ∷ 9 ∷ []) 2)))
setup_try-jump_target_example = setup_try-jump_target 0 0 7 (0 ∷ 4 ∷ 0 ∷ 9 ∷ []) nine

-- The second LOAD_CONST.
decode_function-Uses_example : 0 < table_size loop_limits constants
unfolding read_u16_be
decode_function-Uses_example =
    decode_function-Uses loop_limits loop_code loop_decoded refl loop_decodes 1 (insn 3 0 3 (pos 0))
      refl 0 (drop 4 loop_code) refl constants 0 (constant refl)
