-- ===== src/Bytecode.antt =====
-- The bytecode of src/bytecode: opcodes, their table, and compiled chunks.
pub mod OpCode
pub mod OpcodeInfo
pub mod Chunk
pub mod Inline
pub mod Symbolic
pub mod Patterns
pub mod Bodies
pub mod Justified
