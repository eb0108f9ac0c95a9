-- ===== src/Zk.antt =====
-- pkg/zk-primitives: notes, UTXO transactions, their public inputs and blobs; pkg/hash: Merkle
-- paths.
pub mod Note
pub mod Utxo
pub mod Messages
pub mod HyliUtxo
pub mod Path
pub mod NoteUrl
pub mod Links
pub mod Aggregate
mod Tests
mod AggregateTests
