-- ===== src/Server/Tests.antt =====
-- The theorems on the server's stores at small concrete stores.
use cachecash.Prelude.{
  Bool, true, replicate, ok, ℕ, ◌≡◌, ◌≢◌, refl, none, some, [], ◌∷◌, Bytes, bytes_eq, filter,
}
use cachecash.Prelude.Assoc.{lookup}
use cachecash.Server.Validation.{strip_0x, x_coordinate, normalize_encryption_pubkey}
use cachecash.Server.NoteStore.{
  StoredEncryptedNote, NoteStore, evict, queue_of, insert_note, get_notes, delete_note, is_after,
}
use cachecash.Server.NoteStore.Eviction.{evict_zero}
use cachecash.Server.NoteStore.Queues.{notes_for, IsLog, insert_note-IsLog}
use cachecash.Server.NoteStore.Access.{
  IsPage, IsWithout, any_with, get_notes-eq, queue_of-delete_note,
}

abbrev one : Bytes
one = 1 ∷ []

abbrev two : Bytes
two = 2 ∷ []

abbrev note : ℕ → StoredEncryptedNote
note n = record {
  id = n ∷ [];
  encrypted_payload = [];
  ephemeral_pubkey = [];
  sender_tag = none;
  stored_at = n;
}

-- Two recipients; the first has two notes.
abbrev store : NoteStore
store = record {
  notes = (1 ∷ [], note 5 ∷ note 6 ∷ []) ∷ (2 ∷ [], note 7 ∷ []) ∷ [];
  max_notes_per_recipient = 2;
}

abbrev empty_store : NoteStore
empty_store = record { notes = []; max_notes_per_recipient = 2 }

empty-IsLog : IsLog empty_store []
unfolding queue_of notes_for lookup
empty-IsLog tag = refl

insert_note-IsLog_example :
    (s' : NoteStore) × (insert_note empty_store (1 ∷ []) (note 5) ≡ some s')
    × (s'.max_notes_per_recipient ≡ 2)
    × IsLog s' ((1 ∷ [], note 5) ∷ [])
insert_note-IsLog_example = insert_note-IsLog empty_store [] (1 ∷ []) (note 5) 1 refl empty-IsLog

get_notes-eq_example :
    IsPage 1
      (get_notes store (1 ∷ []) (some 4) (some 1))
      (filter (is_after (some 4)) (queue_of store (1 ∷ [])))
get_notes-eq_example = get_notes-eq store (1 ∷ []) (some 4) (some 1)

queue_of-delete_note_example :
    let r = delete_note store one (5 ∷ []) in
    IsWithout (5 ∷ []) (queue_of store one) (queue_of r.0 one)
    × (one ≢ two → queue_of r.0 two ≡ queue_of store two)
    × (r.1 ≡ any_with (5 ∷ []) (queue_of store one))
queue_of-delete_note_example = queue_of-delete_note store one (5 ∷ []) two

evict_zero_example : evict 5 0 (note 5 ∷ []) ≡ none
evict_zero_example = evict_zero 5 (note 5 ∷ [])

abbrev same_case : Bytes → Bytes
same_case name = name

abbrev all_hex : Bytes → Bool
all_hex text = true

abbrev key : Bytes
key = replicate 64 97

-- Its compressed form.
abbrev compressed : Bytes
compressed = 48 ∷ 50 ∷ key

normalized : normalize_encryption_pubkey all_hex same_case compressed ≡ ok key
unfolding normalize_encryption_pubkey strip_0x x_coordinate bytes_eq
normalized = refl
