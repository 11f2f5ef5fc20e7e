-- ===== src/Vm.antt =====
-- The bytecode interpreter of src/bytecode/bytecode.cpp, as far as the height of its operand stack
-- goes: `Actions` has the pops, pushes and peeks of each opcode, `Control` the steps. `Shapes` compares
-- them with the table of the verifier, `Located` finds the decoded instruction at a position, `Safe`
-- and `Verified` are about verified code, `Gaps` about what the verifier and the interpreter do not
-- agree on.
pub mod Actions
pub mod Control
pub mod Shapes
pub mod Located
pub mod Arrivals
pub mod Emitted
pub mod Safe
pub mod Verified
pub mod Gaps
