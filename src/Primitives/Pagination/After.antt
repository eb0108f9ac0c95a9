-- ===== src/Primitives/Pagination/After.antt =====
-- pkg/primitives/src/pagination.rs: the choice of a cursor that goes after a position.
use cachecash.Primitives.Pagination.Bound.{Bound, excluded, included}

pub data CursorChoiceAfter (P : Type 0) : Type 0 where
  after : P → CursorChoiceAfter P
  after_inclusive : P → CursorChoiceAfter P

module _ {P : Type 0} where
  unfoldable pub inner : CursorChoiceAfter P → P
  inner (after pos) = pos
  inner (after_inclusive pos) = pos

  unfoldable pub inclusive : CursorChoiceAfter P → CursorChoiceAfter P
  inclusive (after pos) = after_inclusive pos
  inclusive (after_inclusive pos) = after_inclusive pos

  unfoldable pub to_bound : CursorChoiceAfter P → Bound P
  to_bound (after pos) = excluded pos
  to_bound (after_inclusive pos) = included pos

  unfoldable pub map_pos : {Q : Type 0} → (P → Q) → CursorChoiceAfter P → CursorChoiceAfter Q
  map_pos f (after pos) = after (f pos)
  map_pos f (after_inclusive pos) = after_inclusive (f pos)
