-- ===== src/Server/NoteStore/Access.antt =====
-- What `get_notes` and `delete_note` of server/src/note_store.rs do to the queues.
use cachecash.Prelude.{
  ℕ, ◌≤◌, ◌≡◌, ◌≢◌, ◌↔◌, refl, sym, ◌∙◌, ap, Bool, true, false, Option, none, some, List, [], ◌∷◌,
  ◌++◌, Bytes, bytes_eq, bytes_eq_iff, bytes_eq_refl, length, is_empty, drop, length-take,
  take-append-drop, take, take_of_length-le, filter, ltb, arith, Bool-cases, Option-cases, inl, inr,
  if◌then◌else◌,
}
use cachecash.Prelude.Assoc.{lookup, remove, lookup-remove}
use cachecash.Server.NoteStore.{
  StoredEncryptedNote, NoteStore, queue_of, is_after, unwrap_or, get_notes, retain_others,
  delete_note,
}
use cachecash.Server.NoteStore.Queues.{drop-nil, queue_of-insert}

-- The first entries of a list, as a page of it.
page_of {ℓ} :
    {A : Type ℓ} (n : ℕ) (xs : List A)
    → (length (take n xs) ≤ n)
      × (take n xs ++ drop n xs ≡ xs)
      × ((ltb n (length xs) ≡ false) ↔ (take n xs ≡ xs))
page_of n xs = (
  omega (arith, length-take n xs),
  take-append-drop n xs,
  (
    λ h. take_of_length-le n xs (ground (arith, h)),
    λ h.
        let e : length (take n xs) ≡ length xs = ap length h in
        within n (length xs) (omega (arith, e, length-take n xs)),
  ),
)
  where
    within : (n l : ℕ) → l ≤ n → ltb n l ≡ false
    within n l h = ground (arith, h)

-- A first page of a list, with the flag whether there is more.
abbrev pub IsPage : ℕ → List StoredEncryptedNote × Bool → List StoredEncryptedNote → Type 0
IsPage n page all =
    (length page.0 ≤ n) × (page.0 ++ drop n all ≡ all) × ((page.1 ≡ false) ↔ (page.0 ≡ all))

-- What a caller reads: `get_notes` returns at most `limit` of the recipient's notes that are newer
-- than `since`, from the oldest on, and says that there are no more exactly when it returns all.
pub get_notes-eq :
    (s : NoteStore) (tag : Bytes) (since limit : Option ℕ)
    → IsPage
        (unwrap_or limit 100)
        (get_notes s tag since limit)
        (filter (is_after since) (queue_of s tag))
unfolding get_notes queue_of
get_notes-eq s tag since limit = elim (Option-cases (lookup tag s.notes)) [
  | inl missing ↦ no_queue missing
  | inr (queue, found) ↦ some_queue queue found
]
  where
    no_queue :
        lookup tag s.notes ≡ none
        → IsPage
            (unwrap_or limit 100)
            (get_notes s tag since limit)
            (filter (is_after since) (queue_of s tag))
    no_queue missing =
        rw (missing, get_notes, queue_of)
          (omega arith, drop-nil (unwrap_or limit 100), ((λ h. refl), (λ h. refl)))

    some_queue :
        (queue : List StoredEncryptedNote)
        → lookup tag s.notes ≡ some queue
        → IsPage
            (unwrap_or limit 100)
            (get_notes s tag since limit)
            (filter (is_after since) (queue_of s tag))
    some_queue queue found =
        rw (found, get_notes, queue_of)
          (page_of (unwrap_or limit 100) (filter (is_after since) queue))

-- `any` of the notes has the id.
abbrev pub any_with : Bytes → List StoredEncryptedNote → Bool
any_with note_id [] = false
any_with note_id (note ∷ queue) =
    let rest = any_with note_id queue in if bytes_eq note.id note_id then true else rest

length-retain_others :
    (note_id : Bytes) (queue : List StoredEncryptedNote)
    → (length (retain_others note_id queue) ≤ length queue)
      × (ltb (length (retain_others note_id queue)) (length queue) ≡ any_with note_id queue)
unfolding retain_others
length-retain_others note_id [] = (omega arith, ground arith)
length-retain_others note_id (note ∷ queue) =
    let (le, flag) = length-retain_others note_id queue in
    elim (Bool-cases (bytes_eq note.id note_id)) [
      | inl same ↦ rw (same, retain_others) (ground (arith, le), ground (arith, le))
      | inr apart ↦ rw (apart, retain_others) (ground (arith, le), ground (arith, le, flag))
    ]

queue_of-remove :
    (s : NoteStore) (tag other : Bytes)
    → queue_of (record s { notes = remove tag s.notes }) other
      ≡ (if bytes_eq tag other then [] else queue_of s other)
unfolding queue_of
queue_of-remove s tag other = ground (arith, lookup-remove tag other s.notes)

queue_of_missing : (s : NoteStore) (tag : Bytes) → lookup tag s.notes ≡ none → queue_of s tag ≡ []
unfolding queue_of
queue_of_missing s tag missing = rw (missing, queue_of) refl

queue_of-missing :
    (s : NoteStore) (tag other : Bytes)
    → lookup tag s.notes ≡ none
    → queue_of s other ≡ (if bytes_eq tag other then [] else queue_of s other)
queue_of-missing s tag other missing = elim (Bool-cases (bytes_eq tag other)) [
  | inl same ↦
      rw same
        (sym (ap (queue_of s) ((bytes_eq_iff tag other).0 same)) ∙ queue_of_missing s tag missing)
  | inr apart ↦ rw apart refl
]

is_empty-nil {ℓ} : {A : Type ℓ} (xs : List A) → is_empty xs ≡ true → xs ≡ []
is_empty-nil [] h = refl
is_empty-nil (x ∷ xs) h = cc

queues-delete_note :
    (s : NoteStore) (tag note_id other : Bytes)
    → let r = delete_note s tag note_id in
      (queue_of r.0 other
        ≡ (if bytes_eq tag other then retain_others note_id (queue_of s tag) else queue_of s other))
      × (r.1 ≡ any_with note_id (queue_of s tag))
unfolding delete_note queue_of
queues-delete_note s tag note_id other = elim (Option-cases (lookup tag s.notes)) [
  | inl missing ↦ rw (missing, delete_note, queue_of) (queue_of-missing s tag other missing, refl)
  | inr (queue, found) ↦ elim (Bool-cases (is_empty (retain_others note_id queue))) [
    | inl gone ↦
        rw (found, gone, delete_note, queue_of)
          (
            queue_of-remove s tag other
                ∙ ap (λ l. if bytes_eq tag other then l else queue_of s other)
                    (sym (is_empty-nil (retain_others note_id queue) gone)),
            (length-retain_others note_id queue).1,
          )
    | inr kept ↦
        rw (found, kept, delete_note, queue_of)
          (
            queue_of-insert s tag other (retain_others note_id queue),
            (length-retain_others note_id queue).1,
          )
  ]
]

-- A queue without the notes of an id: each note that has it is gone, and the others are there in
-- their order.
pub data IsWithout (note_id : Bytes)
    : List StoredEncryptedNote → List StoredEncryptedNote → Type 0 where
  none_left : IsWithout note_id [] []
  removed :
      {queue left : List StoredEncryptedNote} (note : StoredEncryptedNote)
      → note.id ≡ note_id
      → IsWithout note_id queue left
      → IsWithout note_id (note ∷ queue) left
  kept :
      {queue left : List StoredEncryptedNote} (note : StoredEncryptedNote)
      → note.id ≢ note_id
      → IsWithout note_id queue left
      → IsWithout note_id (note ∷ queue) (note ∷ left)

retain_others-IsWithout :
    (note_id : Bytes) (queue : List StoredEncryptedNote)
    → IsWithout note_id queue (retain_others note_id queue)
unfolding retain_others
retain_others-IsWithout note_id [] = none_left
retain_others-IsWithout note_id (note ∷ queue) = elim (Bool-cases (bytes_eq note.id note_id)) [
  | inl same ↦
      rw (same, retain_others)
        (removed note ((bytes_eq_iff note.id note_id).0 same)
          (retain_others-IsWithout note_id queue))
  | inr apart ↦
      rw (apart, retain_others)
        (kept note (λ e. cc (apart, (bytes_eq_iff note.id note_id).1 e))
          (retain_others-IsWithout note_id queue))
]

-- `delete_note` removes from the recipient's queue every note with the id and no other one, keeps
-- the order of the others, leaves the other queues as they are, and says whether there was a note
-- with the id.
pub queue_of-delete_note :
    (s : NoteStore) (tag note_id other : Bytes)
    → let r = delete_note s tag note_id in
      IsWithout note_id (queue_of s tag) (queue_of r.0 tag)
      × (tag ≢ other → queue_of r.0 other ≡ queue_of s other)
      × (r.1 ≡ any_with note_id (queue_of s tag))
queue_of-delete_note s tag note_id other =
    let (own, flag) = queues-delete_note s tag note_id tag in
    let (others, _) = queues-delete_note s tag note_id other in
    (
      rw (own, bytes_eq_refl tag) (retain_others-IsWithout note_id (queue_of s tag)),
      (λ apart. others ∙ rw (bytes_neq tag other apart) refl),
      flag,
    )
  where
    bytes_neq : (a b : Bytes) → a ≢ b → bytes_eq a b ≡ false
    bytes_neq a b apart = elim (Bool-cases (bytes_eq a b)) [
      | inl same ↦ absurd (apart ((bytes_eq_iff a b).0 same))
      | inr no_match ↦ no_match
    ]
