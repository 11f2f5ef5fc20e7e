-- ===== src/Serializer.antt =====
-- The .naric file format of src/bytecode/bytecode_serializer.h. `Write` and `Read` hold the helpers,
-- `Code` the compact form of code, `Emit` the writer and `Parse` the reader of a whole chunk.
pub mod Write
pub mod Read
pub mod Code
pub mod Emit
pub mod Parse
pub mod Storable
pub mod RoundTrip
pub mod Load
