-- ===== src/Element.antt =====
-- pkg/element: 256-bit elements and the signed elements on top of them.
pub mod Int
pub mod Signed
pub mod SignedOps
pub mod Arithmetic
pub mod Comparison
mod Tests
