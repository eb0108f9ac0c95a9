-- ===== src/Primitives/Pagination/Before.antt =====
-- pkg/primitives/src/pagination.rs: the choice of a cursor that goes before a position.
use cachecash.Primitives.Pagination.Bound.{Bound, excluded, included}

pub data CursorChoiceBefore (P : Type 0) : Type 0 where
  before : P → CursorChoiceBefore P
  before_inclusive : P → CursorChoiceBefore P

module _ {P : Type 0} where
  unfoldable pub inner : CursorChoiceBefore P → P
  inner (before pos) = pos
  inner (before_inclusive pos) = pos

  unfoldable pub inclusive : CursorChoiceBefore P → CursorChoiceBefore P
  inclusive (before pos) = before_inclusive pos
  inclusive (before_inclusive pos) = before_inclusive pos

  unfoldable pub to_bound : CursorChoiceBefore P → Bound P
  to_bound (before pos) = excluded pos
  to_bound (before_inclusive pos) = included pos

  unfoldable pub map_pos : {Q : Type 0} → (P → Q) → CursorChoiceBefore P → CursorChoiceBefore Q
  map_pos f (before pos) = before (f pos)
  map_pos f (before_inclusive pos) = before_inclusive (f pos)
