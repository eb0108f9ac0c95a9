-- ===== src/Server/Addresses/Resolving.antt =====
-- What a registration of server/src/api.rs gives a later request.
use cachecash.Prelude.{
  ap, ok_or, Bool-cases, ℕ, ◌≡◌, ◌⊎◌, inl, inr, refl, Bool, Bytes, bytes_eq, bytes_eq_refl, is_some,
  Result, ok, err, Result-cases, if◌then◌else◌,
}
use cachecash.Server.Validation.{strip_0x}
use cachecash.Server.ApiError.{ApiError, not_found, name_not_registered, checked}
use cachecash.Server.Registry
use cachecash.Server.Registry.{AddressRegistry, AddressRegistration, registration, resolve-register}
use cachecash.Server.Addresses.{
  RegisterAddressRequest, RegisterAddressResponse, validate_username, check_registration,
  register_address, resolve_address,
}

module _ (name_characters : Bytes → Bool) (is_hex : Bytes → Bool)
    (to_lowercase : Bytes → Bytes) where
  -- The registration that a request asks for, with a key that was checked.
  abbrev pub asked_for : RegisterAddressRequest → Bytes → ℕ → AddressRegistration
  asked_for request key now =
      registration to_lowercase (request.username) (to_lowercase (strip_0x request.utxo_address))
        key now

  abbrev pub handled :
      AddressRegistry
      → RegisterAddressRequest
      → ℕ
      → AddressRegistry × Result ApiError RegisterAddressResponse
  handled s request now = register_address name_characters is_hex to_lowercase s request now

  found :
      (s : AddressRegistry) (other : Bytes)
      → checked (validate_username name_characters other) ≡ ok tt
      → resolve_address name_characters is_hex to_lowercase s other
        ≡ ok_or (Registry.resolve to_lowercase s other) (not_found name_not_registered)
  unfolding resolve_address
  found s other valid = rw valid refl

  refused_as_before :
      (s : AddressRegistry) (request : RegisterAddressRequest) (now : ℕ) (e : ApiError)
      → check_registration name_characters is_hex to_lowercase request ≡ err e
      → handled s request now ≡ (s, err e)
  unfolding register_address
  refused_as_before s request now e bad = rw (bad, register_address) refl

  -- The registry after a registration that is not refused.
  abbrev registered : AddressRegistry → RegisterAddressRequest → ℕ → Bytes → AddressRegistry
  registered s request now key =
      (Registry.register to_lowercase s (request.username)
        (to_lowercase (strip_0x (request.utxo_address))) key now).0

  register_address-ok :
      (s : AddressRegistry) (request : RegisterAddressRequest) (now : ℕ) (key : Bytes)
      → check_registration name_characters is_hex to_lowercase request ≡ ok key
      → handled s request now ≡ (
        registered s request now key,
        ok (record {
          registration = asked_for request key now;
          was_update = is_some (Registry.resolve to_lowercase s request.username);
        }),
      )
  unfolding register_address
  register_address-ok s request now key good =
      let (before, after) =
        resolve-register to_lowercase s (request.username) (request.username)
          (to_lowercase (strip_0x (request.utxo_address))) key now in
      let same = bytes_eq_refl (to_lowercase (request.username)) in
      rw (good, before, after, same, register_address) refl

  resolved :
      (s : AddressRegistry) (request : RegisterAddressRequest) (now : ℕ) (key other : Bytes)
      → checked (validate_username name_characters other) ≡ ok tt
      → resolve_address name_characters is_hex to_lowercase (registered s request now key) other ≡ (
          if bytes_eq (to_lowercase request.username) (to_lowercase other)
          then ok (asked_for request key now)
          else resolve_address name_characters is_hex to_lowercase s other)
  resolved s request now key other valid =
      let (before, after) =
        resolve-register to_lowercase s (request.username) other
          (to_lowercase (strip_0x (request.utxo_address))) key now in
      elim (Bool-cases (bytes_eq (to_lowercase (request.username)) (to_lowercase other))) [
        | inl same ↦ rw (found _ other valid, after, same) refl
        | inr apart ↦ rw (found _ other valid, found s other valid, after, apart) refl
      ]

  -- `register_address` either is refused by its checks, with the registry as it was, or it returns
  -- the registration, in lower case and with the checked key, and whether the name was registered
  -- before. A valid name is then resolved to that registration when it has the same lower case, and
  -- as before otherwise; the error of a lost registration is never returned.
  pub resolve_address-register_address :
      (s : AddressRegistry) (request : RegisterAddressRequest) (now : ℕ) (other : Bytes)
      → checked (validate_username name_characters other) ≡ ok tt
      → ((e : ApiError) × (check_registration name_characters is_hex to_lowercase request ≡ err e)
          × (handled s request now ≡ (s, err e)))
        ⊎ ((key : Bytes) × (check_registration name_characters is_hex to_lowercase request ≡ ok key)
            × ((handled s request now).1
                ≡ ok (record {
                  registration = asked_for request key now;
                  was_update = is_some (Registry.resolve to_lowercase s request.username);
                }))
            × (resolve_address name_characters is_hex to_lowercase (handled s request now).0 other
                ≡ (if bytes_eq (to_lowercase request.username) (to_lowercase other)
                    then ok (asked_for request key now)
                    else resolve_address name_characters is_hex to_lowercase s other)))
  resolve_address-register_address s request now other valid =
      elim (Result-cases (check_registration name_characters is_hex to_lowercase request)) [
        | inr (e, bad) ↦ inl (e, bad, refused_as_before s request now e bad)
        | inl (key, good) ↦
            let ends = register_address-ok s request now key good in
            inr (key, good, ap (λ r. r.1) ends, rw ends (resolved s request now key other valid))
      ]
