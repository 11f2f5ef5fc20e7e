-- ===== src/Lib.antt =====
-- Verification library for the bytecode, the lexer, the garbage collector and the arithmetic of
-- Nari.
--
-- The lexer turns a source into tokens for the parser. The compiler turns a program into a chunk of
-- functions with code, constants and names. `naric` stores chunks in .naric files. Loading a file
-- reads the chunk, expands the compact form of the code and runs the bytecode verifier; what it
-- accepts is run by the interpreter, which does no checks of its own on operands, jump targets and
-- the height of its stack. The values it makes are objects on a heap, which a mark-and-sweep
-- collector reclaims.
--
-- Files, and what they model (paths from the root of the repository):
--   Bytecode     src/bytecode/bytecode.h: the opcodes and their table (OPCODE_LIST), instruction sizes,
--                constants, function metadata, type declarations and chunks; `Inline` has the
--                classification of bodies for the JIT, `jit_classify_inline`, and `Symbolic` what a
--                body without jumps returns, as a term.
--   Serializer   src/bytecode/bytecode_serializer.h: `Write` and `Read` have the helpers, `Code` has
--                `compact_code` and `expand_code`, `Emit` is `serialize`, `Parse` and `Load` are
--                `deserialize`, `Storable` is the set of chunks that the format has room for.
--   Verifier     src/bytecode/bytecode_verify.h: `Insn` has the decoded instruction and `stack_effect`,
--                `Decode` the passes over the code of `verify_function`, `Flow` has `verify_stack_flow`,
--                `Verify` has `verify_function` and `verify`.
--   Vm           src/bytecode/bytecode.cpp: `Control` has the steps of the interpreter on position and
--                stack height, `Actions` the pops, pushes and peeks of each opcode.
--   Lexer        src/parser/lexer.cpp, token.h and lexer.h, and `trim_ascii` of src/util.h: `Token` has the
--                tokens, `Cursor` the position in the source, `Operators` the tables, `FormatColon` is
--                `find_top_level_format_colon`, `Literals` has the loops for strings, numbers and
--                regular expressions, `Tokenize` is `tokenize`.
--   Gc           src/gc.cpp and src/gc.h, with the objects of src/core_types.h as far as the collector
--                reads them: `Heap` has the objects, `Collector` is `track` and `untrack`, `Mark` is
--                `mark_value`, `Sweep` is `sweep`, `Collect` is `collect` and `force_collect`,
--                `Settings` has the setters.
--   Overflow     src/int_overflow.h: `Checked` has the fallbacks for 64 bits and the three forms of
--                `mul_overflow_i48`, for MSVC on two machines and for GCC and Clang.
--   Prelude      lists, options, integers, bits and tests over the native numbers, with rulesets.
--   Tests        the theorems at concrete chunks, sources, heaps and integers.
--
-- Conventions. A byte is a number below 256. Reading takes the bytes from a position on and returns
-- those that are left. A thrown error, or a check that prints a message and returns false, is
-- `none`; `LoadError` keeps the outcomes of `deserialize` apart. A double is its 64 bits; the
-- conversion of an integer to a double is a parameter. Whether NARI_EXTENDED_JSRT is defined is a
-- parameter.
--
-- Fuel. `decode_loop`, `compact_loop` and `expand_loop` get as many rounds as there are bytes; each
-- round takes a byte at least. `flow_loop` gets as many rounds as instructions, since each enters
-- the queue once at most. `preamble_loop` gets as many rounds as bytes and takes eleven in each.
-- `lex_loop` gets as many rounds as there are bytes in the source, and each takes a byte at least.
-- `mark_loop` gets one round more than there are objects, since each object goes on the worklist
-- once at most; `partition` gets as many rounds as the registry has entries. The loops over a
-- variable-length number get ten rounds of seven bits for 64.
--
-- Not modelled: the values on the stack (of each opcode there are the pops, pushes and peeks, in
-- `Vm.Actions`), what happens inside a call, frames and exceptions that cross them, memory exhaustion
-- but for the registry of the collector, messages; `mul_overflow_i64` and `safe_double_to_i64` of
-- src/int_overflow.h. The parser, the compiler, the JIT and the builtins are outside of this library.

pub mod Prelude
pub mod Bytecode
pub mod Serializer
pub mod Verifier
pub mod Vm
pub mod Lexer
pub mod Gc
pub mod Overflow
pub mod Tests
