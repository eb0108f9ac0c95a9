-- ===== src/Server.antt =====
-- The server (server/src): what it keeps in memory.
pub mod Registry
pub mod ApiError
pub mod Blobs
pub mod Prover
pub mod Transfer
pub mod ProofJobs
pub mod Finalize
pub mod Faucet
pub mod Commands
pub mod NoteStore
pub mod Validation
pub mod Notes
pub mod Addresses
pub mod Requests
pub mod ToySdk
mod Tests
pub mod TransferTests
mod FaucetTests
mod HandlerTests
