-- ===== src/Contract.antt =====
-- The Hyli UTXO state contract (contracts/hyli-utxo-state).
pub mod Smt
pub mod Storage
pub mod Blob
pub mod State
pub mod ZkVm
pub mod Batch
pub mod Executor
pub mod Recording
pub mod Witness
pub mod Applied
pub mod Refinement
pub mod Growth
pub mod DoubleSpend
pub mod Parsing
pub mod Roots
pub mod KnownRoots
pub mod Fifo
pub mod Checks
pub mod Toy
mod Tests
mod StorageTests
