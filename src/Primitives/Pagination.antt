-- ===== src/Primitives/Pagination.antt =====
-- pkg/primitives/src/pagination.rs: cursors, and the paginator over the items of an iterator, which
-- is the list of what it has left. The text forms of the cursors (base64 of JSON) are left out.
pub mod Bound
pub mod After
pub mod Before
pub mod Collecting
use cachecash.Prelude.{
  ℕ, zero, suc, ◌≡◌, refl, ap, ◌∙◌, Bool, true, false, Option, none, some, List, [], ◌∷◌, ◌++◌,
  is_some, if◌then◌else◌, length, Result, ok, err, sym, ◌>>=◌,
}
use cachecash.Primitives.Pagination.After
use cachecash.Primitives.Pagination.Before

pub data CursorChoice (P : Type 0) : Type 0 where
  choice_after : After.CursorChoiceAfter P → CursorChoice P
  choice_before : Before.CursorChoiceBefore P → CursorChoice P

pub record Cursor (P : Type 0) : Type 0 where
  pub after : Option (After.CursorChoiceAfter P)
  pub before : Option (Before.CursorChoiceBefore P)

module _ {P : Type 0} where
  unfoldable pub inner : CursorChoice P → P
  inner (choice_after c) = After.inner c
  inner (choice_before c) = Before.inner c

  unfoldable pub inclusive : CursorChoice P → CursorChoice P
  inclusive (choice_after c) = choice_after (After.inclusive c)
  inclusive (choice_before c) = choice_before (Before.inclusive c)

  unfoldable pub map_pos : {Q : Type 0} → (P → Q) → CursorChoice P → CursorChoice Q
  map_pos f (choice_after c) = choice_after (After.map_pos f c)
  map_pos f (choice_before c) = choice_before (Before.map_pos f c)

pub record PaginatedList (L P : Type 0) : Type 0 where
  pub cursor : Cursor P
  pub list : L

-- `From<PaginatedList<Result<L, E>, Pos>>`.
unfoldable pub transpose :
    {L P E : Type 0} → PaginatedList (Result E L) P → Result E (PaginatedList L P)
transpose paginated_list =
    paginated_list.list >>= λ list. ok (record { cursor = paginated_list.cursor; list = list })

pub record Paginator (I P : Type 0) : Type 0 where
  pub iter : List I
  pub item_to_pos : I → Option P
  pub before : Option (Before.CursorChoiceBefore P)
  pub after : Option (After.CursorChoiceAfter P)

module _ {I P : Type 0} where
  -- `Paginator::new`.
  unfoldable pub new_paginator : List I → (I → Option P) → Paginator I P
  new_paginator iter item_to_pos = record {
    iter = iter;
    item_to_pos = item_to_pos;
    before = none;
    after = none;
  }

  -- The marks that `next` leaves for the position of an item.
  unfoldable pub mark : Option P → Paginator I P → Paginator I P
  mark none p = p
  mark (some pos) p = record p {
    before = if is_some (p.before) then p.before else some (Before.before pos);
    after = some (After.after pos);
  }

  unfoldable pub next : Paginator I P → Paginator I P × Option I
  next p = elim p.iter [
    | [] ↦ (p, none)
    | item ∷ iter ↦ (mark (p.item_to_pos item) (record p { iter = iter }), some item)
  ]

  -- The loop of `collect`, for so many rounds.
  unfoldable pub collect_from : ℕ → Paginator I P → Paginator I P × List I
  collect_from zero p = (p, [])
  collect_from (suc fuel) p =
      let (q, found) = next p in
      let (last, items) = collect_from fuel q in
      elim found [ none ↦ (q, []) | some item ↦ (last, item ∷ items) ]

  unfoldable pub collect : Paginator I P → Cursor P × List I
  collect p =
      let (last, items) = collect_from (suc (length (p.iter))) p in
      (record { after = last.after; before = last.before }, items)
