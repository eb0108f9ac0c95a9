-- ===== src/Primitives/Pagination/Bound.antt =====
-- `std::ops::Bound`, as far as the cursors of pkg/primitives/src/pagination.rs give one.
pub data Bound (P : Type 0) : Type 0 where
  excluded included : P → Bound P
