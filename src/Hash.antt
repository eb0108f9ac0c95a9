-- ===== src/Hash.antt =====
-- The hash functions that the repository writes itself (pkg/hash/src).
pub mod Bytes
pub mod Poseidon
mod Tests
