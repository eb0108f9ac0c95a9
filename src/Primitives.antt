-- ===== src/Primitives.antt =====
-- pkg/primitives: the pool of values that tasks share.
pub mod Batch
pub mod Pagination
pub mod Pool
pub mod Retry
pub mod Sharing
mod Tests
mod BatchTests
mod RetryTests
