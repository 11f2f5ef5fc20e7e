-- ===== src/Verifier/Fixpoint.antt =====
-- What the stack-height pass of the verifier establishes: `Queue` about its queue and its table of
-- heights, `Rounds` about one round, `Result` about the whole loop.
pub mod Queue
pub mod Rounds
pub mod Result
