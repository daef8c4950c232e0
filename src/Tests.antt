-- ===== src/Tests.antt =====
-- Runs at concrete inputs: a float type for them, and the theorems applied to examples.
pub mod Fixed
pub mod IndexExamples
pub mod MerkleExamples
pub mod SealExamples
pub mod Toy
pub mod StoreExamples
pub mod SyncExamples
