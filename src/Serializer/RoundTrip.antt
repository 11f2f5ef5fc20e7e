-- ===== src/Serializer/RoundTrip.antt =====
-- What is written is read back: numbers and strings, code, and the parts of a chunk.
pub mod Numbers
pub mod Rounds
pub mod Code
pub mod Chunks
