-- ===== src/Verifier.antt =====
-- The bytecode verifier of src/bytecode/bytecode_verify.h: `Insn` has a decoded instruction and its
-- stack effect, `Decode` the pass that decodes a function and checks its operands, `Flow` the pass
-- over stack heights, `Verify` the whole.
pub mod Insn
pub mod Decode
pub mod Decoding
pub mod Flow
pub mod Fixpoint
pub mod Verify
