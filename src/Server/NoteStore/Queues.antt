-- ===== src/Server/NoteStore/Queues.antt =====
-- What `NoteStore` of server/src/note_store.rs promises: a queue holds the newest notes that were
-- stored for its recipient.
use cachecash.Prelude.{
  ℕ, zero, suc, ◌+◌, ◌-◌, ◌≤◌, ◌≡◌, refl, sym, ◌∙◌, ap, some, List, [], ◌∷◌, ◌++◌, Bytes, bytes_eq,
  bytes_eq_iff, length, length-append, drop, length-drop, arith, Bool-cases, inl, inr,
  if◌then◌else◌,
}
use cachecash.Prelude.Assoc.{insert, lookup-insert}
use cachecash.Server.NoteStore.{StoredEncryptedNote, NoteStore, evict, queue_of, insert_note}
use cachecash.Server.NoteStore.Eviction.{evict-drop}

-- The last `n` entries of a list.
abbrev pub newest {ℓ} : {A : Type ℓ} → ℕ → List A → List A
newest n xs = drop (length xs - n) xs

pub drop-nil {ℓ} : {A : Type ℓ} (n : ℕ) → drop {A = A} n [] ≡ []
drop-nil zero = refl
drop-nil (suc n) = refl

drop-drop {ℓ} : {A : Type ℓ} (n m : ℕ) (xs : List A) → drop n (drop m xs) ≡ drop (n + m) xs
drop-drop n zero xs = ap (λ k. drop k xs) (omega arith)
drop-drop n (suc m) [] = drop-nil n ∙ sym (drop-nil (n + suc m))
drop-drop n (suc m) (x ∷ xs) = drop-drop n m xs ∙ ap (λ k. drop k (x ∷ xs)) (sum n m)
  where
    sum : (n m : ℕ) → suc (n + m) ≡ n + suc m
    sum n m = omega arith

drop-append {ℓ} :
    {A : Type ℓ} (n : ℕ) (xs ys : List A) → n ≤ length xs → drop n (xs ++ ys) ≡ drop n xs ++ ys
drop-append zero xs ys h = refl
drop-append (suc n) [] ys h = absurd (omega (arith, h))
drop-append (suc n) (x ∷ xs) ys h = drop-append n xs ys (omega (arith, h))

-- A window that makes room for one entry and takes it in is the window over the longer list.
newest-snoc {ℓ} :
    {A : Type ℓ} (m : ℕ) (xs : List A) (x : A)
    → let window = newest (suc m) xs in
      drop (length window - m) window ++ x ∷ [] ≡ newest (suc m) (xs ++ x ∷ [])
newest-snoc m xs x =
    let l = length xs in
    let size : length (newest (suc m) xs) ≡ l - (l - suc m) = length-drop (l - suc m) xs in
    let total : (length (newest (suc m) xs) - m) + (l - suc m) ≡ l - m = rw size (omega arith) in
    let longer : length (xs ++ x ∷ []) - suc m ≡ l - m = omega (arith, length-append xs (x ∷ [])) in
    ap (λ q. q ++ x ∷ []) (drop-drop _ (l - suc m) xs ∙ ap (λ k. drop k xs) total)
    ∙ (sym (drop-append (l - m) xs (x ∷ []) (omega arith))
        ∙ ap (λ k. drop k (xs ++ x ∷ [])) (sym longer))

-- The notes of a log for one recipient, the oldest first.
unfoldable pub notes_for : Bytes → List (Bytes × StoredEncryptedNote) → List StoredEncryptedNote
notes_for tag [] = []
notes_for tag ((t, note) ∷ log) =
    let rest = notes_for tag log in if bytes_eq t tag then note ∷ rest else rest

notes_for-snoc :
    (tag t : Bytes) (note : StoredEncryptedNote) (log : List (Bytes × StoredEncryptedNote))
    → notes_for tag (log ++ (t, note) ∷ [])
      ≡ (if bytes_eq t tag then notes_for tag log ++ note ∷ [] else notes_for tag log)
unfolding notes_for
notes_for-snoc tag t note [] = ground arith
notes_for-snoc tag t note ((u, n) ∷ log) = ground (arith, notes_for-snoc tag t note log)

-- The store holds the newest notes of a log.
abbrev pub IsLog : NoteStore → List (Bytes × StoredEncryptedNote) → Type 0
IsLog s log = (tag : Bytes) → queue_of s tag ≡ newest s.max_notes_per_recipient (notes_for tag log)

insert_note-some :
    (s : NoteStore) (tag : Bytes) (note : StoredEncryptedNote) (m : ℕ)
    → s.max_notes_per_recipient ≡ suc m
    → insert_note s tag note
      ≡ some (record s {
        notes =
            insert tag (drop (length (queue_of s tag) - m) (queue_of s tag) ++ note ∷ []) s.notes;
      })
unfolding insert_note
insert_note-some s tag note m h =
    let queue = queue_of s tag in
    let kept : evict (suc (length queue)) s.max_notes_per_recipient queue
        ≡ some (drop (length queue - m) queue) =
      ap (λ n. evict (suc (length queue)) n queue) h
      ∙ evict-drop m (suc (length queue)) queue (omega arith) in
    rw (kept, insert_note) refl

pub queue_of-insert :
    (s : NoteStore) (tag other : Bytes) (queue : List StoredEncryptedNote)
    → queue_of (record s { notes = insert tag queue s.notes }) other
      ≡ (if bytes_eq tag other then queue else queue_of s other)
unfolding queue_of
queue_of-insert s tag other queue = ground (arith, lookup-insert tag other queue s.notes)

-- A store that holds the newest notes of a log takes a further note in, and then holds the newest
-- notes of the log with that note at its end, for every recipient, when its maximum is at least
-- one.
pub insert_note-IsLog :
    (s : NoteStore) (log : List (Bytes × StoredEncryptedNote)) (tag : Bytes)
    (note : StoredEncryptedNote) (m : ℕ)
    → s.max_notes_per_recipient ≡ suc m
    → IsLog s log
    → (s' : NoteStore) × (insert_note s tag note ≡ some s')
      × (s'.max_notes_per_recipient ≡ suc m)
      × IsLog s' (log ++ (tag, note) ∷ [])
unfolding queue_of
insert_note-IsLog s log tag note m h holds =
    let queue = queue_of s tag in
    let inserted : NoteStore = record s {
      notes = insert tag (drop (length queue - m) queue ++ note ∷ []) s.notes;
    } in
    (inserted, insert_note-some s tag note m h, h, λ other. after other)
  where
    at_tag :
        (other : Bytes)
        → tag ≡ other
        → drop (length (queue_of s tag) - m) (queue_of s tag) ++ note ∷ []
          ≡ newest (suc m) (notes_for other log ++ note ∷ [])
    at_tag other e = rw (holds tag, h, e) (newest-snoc m (notes_for other log) note)

    after :
        (other : Bytes)
        → queue_of
            (record s {
              notes =
                  insert tag
                    (drop (length (queue_of s tag) - m) (queue_of s tag) ++ note ∷ [])
                    s.notes;
            })
            other
          ≡ newest s.max_notes_per_recipient (notes_for other (log ++ (tag, note) ∷ []))
    after other = elim (Bool-cases (bytes_eq tag other)) [
      | inl same ↦
          rw
            (
              queue_of-insert s tag other
                  (drop (length (queue_of s tag) - m) (queue_of s tag) ++ note ∷ []),
              notes_for-snoc other tag note log,
              same,
              h,
            )
            (at_tag other ((bytes_eq_iff tag other).0 same))
      | inr apart ↦
          rw
            (
              queue_of-insert s tag other
                  (drop (length (queue_of s tag) - m) (queue_of s tag) ++ note ∷ []),
              notes_for-snoc other tag note log,
              apart,
            )
            (holds other)
    ]
