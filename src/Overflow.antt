-- ===== src/Overflow.antt =====
-- The overflow-checked arithmetic of src/int_overflow.h. `Words` has 64-bit words, `Checked` the
-- functions, `Exact` what they compute.
pub mod Words
pub mod Checked
pub mod Exact
