-- ===== src/Primitives/Pagination/Collecting.antt =====
-- What the paginator of pkg/primitives/src/pagination.rs collects.
use cachecash.Prelude.{suc, ◌≡◌, refl, ap, ◌∙◌, Option, none, some, List, [], ◌∷◌, length}
use cachecash.Primitives.Pagination
use cachecash.Primitives.Pagination.After
use cachecash.Primitives.Pagination.Before

abbrev pub or_else : {A : Type 0} → Option A → Option A → Option A
or_else none b = b
or_else (some a) b = some a

or_else-none : {A : Type 0} (o : Option A) → or_else o none ≡ o
or_else-none none = refl
or_else-none (some a) = refl

module _ {P : Type 0} where
  abbrev pub before_of : Option P → Option (Before.CursorChoiceBefore P)
  before_of none = none
  before_of (some pos) = some (Before.before pos)

  abbrev pub after_of : Option P → Option (After.CursorChoiceAfter P)
  after_of none = none
  after_of (some pos) = some (After.after pos)

  before-or :
      (b : Option (Before.CursorChoiceBefore P)) (found rest : Option P)
      → or_else (or_else b (before_of found)) (before_of rest)
        ≡ or_else b (before_of (or_else found rest))
  before-or (some b) found rest = refl
  before-or none none rest = refl
  before-or none (some p) rest = refl

  after-or :
      (a : Option (After.CursorChoiceAfter P)) (found rest : Option P)
      → or_else (after_of rest) (or_else (after_of found) a)
        ≡ or_else (after_of (or_else rest found)) a
  after-or a found (some p) = refl
  after-or a found none = refl

module _ {I P : Type 0} where
  -- The first and the last position that some item has.
  abbrev pub first_pos : (I → Option P) → List I → Option P
  first_pos pos [] = none
  first_pos pos (item ∷ items) = or_else (pos item) (first_pos pos items)

  abbrev pub last_pos : (I → Option P) → List I → Option P
  last_pos pos [] = none
  last_pos pos (item ∷ items) = or_else (last_pos pos items) (pos item)

  abbrev paginator :
      List I
      → (I → Option P)
      → Option (Before.CursorChoiceBefore P)
      → Option (After.CursorChoiceAfter P)
      → Pagination.Paginator I P
  paginator items pos b a = record { iter = items; item_to_pos = pos; before = b; after = a }

  -- The marks of a position.
  abbrev marked :
      Option P
      → List I
      → (I → Option P)
      → Option (Before.CursorChoiceBefore P)
      → Option (After.CursorChoiceAfter P)
      → Pagination.Paginator I P
  marked found items pos b a =
      paginator items pos (or_else b (before_of found)) (or_else (after_of found) a)

  mark-eq :
      (found : Option P) (items : List I) (pos : I → Option P)
      (b : Option (Before.CursorChoiceBefore P)) (a : Option (After.CursorChoiceAfter P))
      → Pagination.mark found (paginator items pos b a) ≡ marked found items pos b a
  unfolding Pagination.mark
  mark-eq none items pos none a = refl
  mark-eq none items pos (some b) a = refl
  mark-eq (some p) items pos none a = refl
  mark-eq (some p) items pos (some b) a = refl

  collect_step :
      (item : I) (items : List I) (pos : I → Option P) (b : Option (Before.CursorChoiceBefore P))
      (a : Option (After.CursorChoiceAfter P))
      → Pagination.collect_from (suc (length (item ∷ items))) (paginator (item ∷ items) pos b a) ≡ (
        (Pagination.collect_from
            (suc (length items))
            (Pagination.mark (pos item) (paginator items pos b a))).0,
        item
            ∷ (Pagination.collect_from
                (suc (length items))
                (Pagination.mark (pos item) (paginator items pos b a))).1,
      )
  unfolding Pagination.collect_from Pagination.next
  collect_step item items pos b a = refl

  collect_from-eq :
      (items : List I) (pos : I → Option P) (b : Option (Before.CursorChoiceBefore P))
      (a : Option (After.CursorChoiceAfter P))
      → Pagination.collect_from (suc (length items)) (paginator items pos b a) ≡ (
        paginator [] pos
            (or_else b (before_of (first_pos pos items)))
            (or_else (after_of (last_pos pos items)) a),
        items,
      )
  unfolding Pagination.collect_from Pagination.next
  collect_from-eq [] pos none a = refl
  collect_from-eq [] pos (some b) a = refl
  collect_from-eq (item ∷ items) pos b a =
      collect_step item items pos b a
      ∙ (ap (λ (r : Pagination.Paginator I P × List I). (r.0, item ∷ r.1))
            (ap (Pagination.collect_from (suc (length items))) (mark-eq (pos item) items pos b a)
              ∙ collect_from-eq items pos (or_else b (before_of (pos item)))
                  (or_else (after_of (pos item)) a))
          ∙ rw
              (
                before-or b (pos item) (first_pos pos items),
                after-or a (pos item) (last_pos pos items),
              )
              refl)

  -- `collect` gives the items of the iterator, all and in their order, with a cursor that goes
  -- before the first position that an item has and after the last one.
  pub collect-eq :
      (items : List I) (pos : I → Option P)
      → Pagination.collect (Pagination.new_paginator items pos) ≡ (
        record { after = after_of (last_pos pos items); before = before_of (first_pos pos items) },
        items,
      )
  unfolding Pagination.collect Pagination.new_paginator
  collect-eq items pos =
      rw (collect_from-eq items pos none none)
        (rw (or_else-none (after_of (last_pos pos items))) refl)
