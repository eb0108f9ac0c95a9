-- ===== src/Server/HandlerTests.antt =====
-- The theorems on the handlers of server/src/api.rs and on the provers, at small concrete requests.
use cachecash.Prelude.{
  ◌≡◌, ◌⊎◌, refl, Bool, true, none, [], ◌∷◌, Bytes, bytes_eq, replicate, is_some, ok, err,
  if◌then◌else◌,
}
use cachecash.Server.ApiError.{ApiError, checked}
use cachecash.Server.Registry
use cachecash.Server.NoteStore.{NoteStore}
use cachecash.Server.Notes.{UploadNoteRequest}
use cachecash.Server.Addresses.{
  RegisterAddressRequest, validate_username, check_registration, resolve_address,
}
use cachecash.Server.Addresses.Resolving.{asked_for, handled, resolve_address-register_address}
use cachecash.Server.Prover.{Call, pad_right_with_null, build_call}

abbrev any_text : Bytes → Bool
any_text text = true

abbrev same_text : Bytes → Bytes
same_text text = text

abbrev tag : Bytes
tag = replicate 64 97

abbrev upload : UploadNoteRequest
upload = record {
  recipient_tag = tag;
  encrypted_payload = 1 ∷ 2 ∷ [];
  ephemeral_pubkey = replicate 128 97;
  sender_tag = none;
}

abbrev no_notes : NoteStore
no_notes = record { notes = []; max_notes_per_recipient = 2 }

abbrev alice : Bytes
alice = 97 ∷ 108 ∷ []

abbrev registering : RegisterAddressRequest
registering = record { username = alice; utxo_address = tag; encryption_pubkey = replicate 64 98 }

alice_valid : checked (validate_username any_text alice) ≡ ok tt
unfolding checked validate_username
alice_valid = refl

resolve_address-register_address_example :
    ((e : ApiError) × (check_registration any_text any_text same_text registering ≡ err e)
      × (handled any_text any_text same_text [] registering 5 ≡ ([], err e)))
    ⊎ ((key : Bytes) × (check_registration any_text any_text same_text registering ≡ ok key)
        × ((handled any_text any_text same_text [] registering 5).1
            ≡ ok (record {
              registration = asked_for any_text any_text same_text registering key 5;
              was_update = is_some (Registry.resolve same_text [] alice);
            }))
        × (resolve_address any_text any_text same_text
              (handled any_text any_text same_text [] registering 5).0
              alice
            ≡ (if bytes_eq alice alice
                then ok (asked_for any_text any_text same_text registering key 5)
                else resolve_address any_text any_text same_text [] alice)))
resolve_address-register_address_example =
    resolve_address-register_address any_text any_text same_text [] registering 5 alice alice_valid

-- A contract name of 256 bytes gets the length 0.
long_name :
    (call : Call) × (build_call same_text 128 (replicate 256 97) tag alice [] 3 1 ≡ ok call)
    × (call.blob_contract_name_len ≡ 0)
unfolding build_call pad_right_with_null
long_name = (_, refl, refl)
