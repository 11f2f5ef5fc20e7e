-- ===== src/Verifier/Decoding.antt =====
-- What the decoding passes of the verifier establish: `Passed` of one instruction, `Table` of the
-- list of instructions and the index by position, `Tiles` of the code as a whole, `Entry` of its start,
-- `Operands` of the operands.
pub mod Passed
pub mod Table
pub mod Tiles
pub mod Entry
pub mod Operands
