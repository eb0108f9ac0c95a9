-- ===== src/Server/NoteStore.antt =====
-- server/src/note_store.rs: `NoteStore`, encrypted notes in one queue per recipient. The clock's
-- times are arguments. The file that `maybe_persist` writes is left out: a failure to write it is
-- only logged.
use cachecash.Prelude.{
  ℕ, zero, suc, ◌+◌, Bool, true, false, not, Option, none, some, List, [], ◌∷◌, ◌++◌, Bytes,
  bytes_eq, length, is_empty, take, drop, filter, ltb, leb, if◌then◌else◌, is_some,
}
use cachecash.Prelude.Assoc.{HashMap, lookup, insert, remove}
pub mod Eviction
pub mod Queues
pub mod Access

abbrev pub default_max_notes_per_recipient : ℕ
default_max_notes_per_recipient = 1000

pub record StoredEncryptedNote : Type 0 where
  pub id : Bytes
  pub encrypted_payload : Bytes
  pub ephemeral_pubkey : Bytes
  pub sender_tag : Option Bytes
  pub stored_at : ℕ

pub record NoteStore : Type 0 where
  pub notes : HashMap (List StoredEncryptedNote)
  pub max_notes_per_recipient : ℕ

-- `unwrap_or`.
abbrev pub unwrap_or : Option ℕ → ℕ → ℕ
unwrap_or none d = d
unwrap_or (some n) d = n

-- `NoteStore::new`.
unfoldable pub new_store : Option ℕ → NoteStore
new_store max = record {
  notes = [];
  max_notes_per_recipient = unwrap_or max default_max_notes_per_recipient;
}

-- `pop_front`, without its result.
abbrev pub pop_front {ℓ} : {A : Type ℓ} → List A → List A
pop_front [] = []
pop_front (x ∷ xs) = xs

-- The loop `while queue.len() >= max { queue.pop_front() }`, on fuel; `none` when it runs out.
unfoldable pub evict {ℓ} : {A : Type ℓ} → ℕ → ℕ → List A → Option (List A)
evict zero max queue = none
evict (suc fuel) max queue =
    let rest = evict fuel max (pop_front queue) in
    if leb max (length queue) then rest else some queue

-- `entry(tag).or_default()`.
unfoldable pub queue_of : NoteStore → Bytes → List StoredEncryptedNote
queue_of s tag = elim (lookup tag s.notes) [ none ↦ [] | some queue ↦ queue ]

-- `insert` of a note that has its id and its time already. The loop runs at most once for each note
-- of the queue and once more, if it ends at all.
unfoldable pub insert_note : NoteStore → Bytes → StoredEncryptedNote → Option NoteStore
unfolding evict queue_of
insert_note s tag note =
    let queue = queue_of s tag in
    elim (evict (suc (length queue)) s.max_notes_per_recipient queue) [
      | none ↦ none
      | some kept ↦ some (record s { notes = insert tag (kept ++ note ∷ []) s.notes })
    ]

-- The test of the closure in `get_notes`.
abbrev pub is_after : Option ℕ → StoredEncryptedNote → Bool
is_after none note = true
is_after (some since) note = ltb since note.stored_at

unfoldable pub get_notes : NoteStore → Bytes → Option ℕ → Option ℕ → List StoredEncryptedNote × Bool
get_notes s tag since limit = elim (lookup tag s.notes) [
  | none ↦ ([], false)
  | some queue ↦
      let filtered = filter (is_after since) queue in
      let n = unwrap_or limit 100 in (take n filtered, ltb n (length filtered))
]

-- `queue.retain(|note| note.id != note_id)`.
unfoldable pub retain_others : Bytes → List StoredEncryptedNote → List StoredEncryptedNote
retain_others note_id queue =
    filter (λ (note : StoredEncryptedNote). not (bytes_eq note.id note_id)) queue

unfoldable pub delete_note : NoteStore → Bytes → Bytes → NoteStore × Bool
unfolding retain_others
delete_note s tag note_id = elim (lookup tag s.notes) [
  | none ↦ (s, false)
  | some queue ↦
      let left = retain_others note_id queue in
      let deleted = ltb (length left) (length queue) in
      if is_empty left
      then (record s { notes = remove tag s.notes }, deleted)
      else (record s { notes = insert tag left s.notes }, deleted)
]

-- The notes of all the queues, and the number of recipients.
unfoldable pub total_of : HashMap (List StoredEncryptedNote) → ℕ
total_of [] = 0
total_of ((_, queue) ∷ m) = length queue + total_of m

unfoldable pub total_notes : NoteStore → ℕ
unfolding total_of
total_notes s = total_of s.notes

unfoldable pub recipient_count : NoteStore → ℕ
recipient_count s = length s.notes
