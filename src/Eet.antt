-- ===== src/Eet.antt =====
-- The tester of queries by equivalent expressions, src/eet/qcn_tester.
pub mod Query
pub mod Back
pub mod Meaning
pub mod Correct
pub mod Tester
mod Outcome
pub mod Sound
pub mod Verdict
mod Samples
