-- ===== src/Server/Notes.antt =====
-- server/src/api.rs: the handlers of the encrypted notes, over the store of server/src/note_store.rs.
-- The id and the time of a stored note are arguments, as they are for the store. What the crate
-- `hex` decodes and the lower case of a text are parameters.
use cachecash.Prelude.{
  ℕ, Bool, true, false, not, Option, none, some, List, [], ◌∷◌, map, Bytes, length, is_empty, ltb,
  if◌then◌else◌, Result, ok, err, ◌>>=◌, ◌>>◌, guard,
}
use cachecash.Server.Validation.{strip_0x, validate_tag, validate_ephemeral_pubkey}
use cachecash.Server.ApiError.{
  ApiError, bad_request, not_found, payload_too_large, checked, payload_exceeds, payload_empty,
  note_not_found,
}
use cachecash.Server.NoteStore
use cachecash.Server.NoteStore.{NoteStore, StoredEncryptedNote}
pub mod Uploading

pub record UploadNoteRequest : Type 0 where
  pub recipient_tag : Bytes
  pub encrypted_payload : Bytes
  pub ephemeral_pubkey : Bytes
  pub sender_tag : Option Bytes

pub record UploadNoteResponse : Type 0 where
  pub id : Bytes
  pub stored_at : ℕ

pub record GetNotesQuery : Type 0 where
  pub since : Option ℕ
  pub limit : Option ℕ

-- `EncryptedNoteRecord` has the fields of a stored note, and the handler copies each.
pub record GetNotesResponse : Type 0 where
  pub notes : List StoredEncryptedNote
  pub has_more : Bool

module _ (to_lowercase : Bytes → Bytes) where
  -- `strip_prefix("0x").unwrap_or(..).to_lowercase()`.
  unfoldable pub normalized : Bytes → Bytes
  unfolding strip_0x
  normalized text = to_lowercase (strip_0x text)

  unfoldable pub normalized_sender : Option Bytes → Option Bytes
  unfolding normalized
  normalized_sender none = none
  normalized_sender (some tag) = some (normalized tag)

  -- The note that a request stores.
  unfoldable pub stored_note : UploadNoteRequest → Bytes → ℕ → StoredEncryptedNote
  unfolding normalized normalized_sender
  stored_note request id now = record {
    id = id;
    encrypted_payload = request.encrypted_payload;
    ephemeral_pubkey = normalized request.ephemeral_pubkey;
    sender_tag = normalized_sender request.sender_tag;
    stored_at = now;
  }

module _ (is_hex : Bytes → Bool) where
  -- The check of a sender's tag, if there is one.
  unfoldable pub validate_sender : Option Bytes → Result ApiError (Unit {0})
  validate_sender none = ok tt
  validate_sender (some tag) = checked (validate_tag is_hex tag)

  -- What stands before the insertion.
  unfoldable pub check_upload : ℕ → UploadNoteRequest → Result ApiError (Unit {0})
  unfolding validate_sender checked
  check_upload max_note_payload_size request = do
    checked (validate_tag is_hex request.recipient_tag)
    checked (validate_ephemeral_pubkey is_hex request.ephemeral_pubkey)
    validate_sender request.sender_tag
    guard (not (ltb max_note_payload_size (length request.encrypted_payload)))
        (payload_too_large (payload_exceeds max_note_payload_size))
    guard (not (is_empty request.encrypted_payload)) (bad_request payload_empty)

  module _ (to_lowercase : Bytes → Bytes) where
    -- The state and the response; none when the store's eviction loop does not end.
    unfoldable pub upload_note :
        ℕ
        → NoteStore
        → UploadNoteRequest
        → Bytes
        → ℕ
        → Option (NoteStore × Result ApiError UploadNoteResponse)
    unfolding check_upload stored_note normalized
    upload_note max_note_payload_size s request id now =
        elim (check_upload max_note_payload_size request) [
          | err e ↦ some (s, err e)
          | ok passed ↦
              elim (NoteStore.insert_note s (normalized to_lowercase request.recipient_tag)
                (stored_note to_lowercase request id now)) [
                  | none ↦ none
                  | some s' ↦ some (s', ok (record { id = id; stored_at = now }))
                ]
        ]

    unfoldable pub get_notes : NoteStore → Bytes → GetNotesQuery → Result ApiError GetNotesResponse
    unfolding normalized checked
    get_notes s recipient_tag query = do
      checked (validate_tag is_hex recipient_tag)
      let (notes, has_more) =
          NoteStore.get_notes s (normalized to_lowercase recipient_tag) query.since query.limit
      ok (record { notes = notes; has_more = has_more })

    unfoldable pub delete_note : NoteStore → Bytes → Bytes → NoteStore × Result ApiError (Unit {0})
    unfolding normalized checked
    delete_note s recipient_tag note_id = elim (checked (validate_tag is_hex recipient_tag)) [
      | err e ↦ (s, err e)
      | ok valid ↦
          let (s', deleted) =
            NoteStore.delete_note s (normalized to_lowercase recipient_tag) note_id in
          (s', guard deleted (not_found note_not_found))
    ]
