-- ===== src/Merkle.antt =====
-- crates/interstellar-index/src/merkle.rs: the Merkle octree over Morton-coded keys. SHA-256 is a
-- parameter. `none` is a panic: a failed assertion, or an index out of bounds.
pub mod Tree
pub mod Forest
pub mod Diff
pub mod Seal
