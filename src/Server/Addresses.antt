-- ===== src/Server/Addresses.antt =====
-- server/src/api.rs: the handlers of the address registry, over the registry of
-- server/src/note_store.rs. What the crate `hex` decodes, the lower case of a text, and whether its
-- characters are letters, digits, `_` or `-` (by Unicode) are parameters.
use cachecash.Prelude.{
  ℕ, Bool, not, Option, Bytes, length, is_empty, is_some, ltb, Result, ok, err, ◌>>=◌, ◌>>◌, guard,
  ok_or, if◌then◌else◌,
}
use cachecash.Server.Validation.{
  BadRequest, must_not_be_empty, wrong_length, bad_characters, strip_0x, validate_tag,
  normalize_encryption_pubkey,
}
use cachecash.Server.ApiError.{
  ApiError, internal, not_found, checked, name_not_registered, registration_lost,
}
use cachecash.Server.Registry
use cachecash.Server.Registry.{AddressRegistry, AddressRegistration}
pub mod Resolving

pub record RegisterAddressRequest : Type 0 where
  pub username : Bytes
  pub utxo_address : Bytes
  pub encryption_pubkey : Bytes

-- `RegisterAddressResponse` and `ResolveAddressResponse` have the fields of a registration; the
-- first one says besides whether there was an earlier one.
pub record RegisterAddressResponse : Type 0 where
  pub registration : AddressRegistration
  pub was_update : Bool

-- `validate_utxo_address`, whose checks are those of a tag.
unfoldable pub validate_utxo_address : (Bytes → Bool) → Bytes → Result BadRequest (Unit {0})
validate_utxo_address is_hex address = validate_tag is_hex address

module _ (name_characters : Bytes → Bool) where
  unfoldable pub validate_username : Bytes → Result BadRequest (Unit {0})
  validate_username username = do
    guard (not (is_empty username)) must_not_be_empty
    guard (not (ltb 64 (length username))) wrong_length
    guard (name_characters username) bad_characters

  module _ (is_hex : Bytes → Bool) (to_lowercase : Bytes → Bytes) where
    -- The checks of a registration, which give the encryption key.
    unfoldable pub check_registration : RegisterAddressRequest → Result ApiError Bytes
    unfolding validate_username validate_utxo_address checked
    check_registration request = do
      checked (validate_username request.username)
      checked (validate_utxo_address is_hex request.utxo_address)
      checked (normalize_encryption_pubkey is_hex to_lowercase request.encryption_pubkey)

    -- The registry and the response.
    unfoldable pub register_address :
        AddressRegistry
        → RegisterAddressRequest
        → ℕ
        → AddressRegistry × Result ApiError RegisterAddressResponse
    unfolding check_registration
    register_address s request now = elim (check_registration request) [
      | err e ↦ (s, err e)
      | ok encryption_pubkey ↦
          let (s', previous) =
            Registry.register to_lowercase s request.username
              (to_lowercase (strip_0x request.utxo_address)) encryption_pubkey now in
          (
            s',
            do
              registration ←
                  ok_or (Registry.resolve to_lowercase s' request.username)
                    (internal registration_lost)
              ok (record { registration = registration; was_update = is_some previous }),
          )
    ]

    unfoldable pub resolve_address : AddressRegistry → Bytes → Result ApiError AddressRegistration
    resolve_address s username = do
      checked (validate_username username)
      ok_or (Registry.resolve to_lowercase s username) (not_found name_not_registered)
