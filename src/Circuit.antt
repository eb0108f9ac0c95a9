-- ===== src/Circuit.antt =====
-- The inputs of the Noir circuits (pkg/barretenberg/src/circuits).
pub mod TxHash
pub mod Inputs
pub mod Proofs
pub mod Building
pub mod Aggregation
pub mod Faucet
mod Tests
mod AggregationTests
