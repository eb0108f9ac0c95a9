-- ===== src/Server/Registry.antt =====
-- server/src/note_store.rs: `AddressRegistry`, user names with their UTXO addresses. The clock's
-- time is an argument, and the lower case of a name is a parameter. The file that `maybe_persist`
-- writes is left out: a failure to write it is only logged.
use cachecash.Prelude.{
  ℕ, ◌≡◌, refl, Option, none, some, List, [], map, Bytes, bytes_eq, length, if◌then◌else◌,
}
use cachecash.Prelude.Assoc.{HashMap, lookup, insert, remove, lookup-insert, lookup-remove}

pub record AddressRegistration : Type 0 where
  pub username : Bytes
  pub utxo_address : Bytes
  pub encryption_pubkey : Bytes
  pub registered_at : ℕ

abbrev pub AddressRegistry : Type 0
AddressRegistry = HashMap AddressRegistration

-- `AddressRegistry::new`.
unfoldable pub new_registry : AddressRegistry
new_registry = []

module _ (to_lowercase : Bytes → Bytes) where
  abbrev pub registration : Bytes → Bytes → Bytes → ℕ → AddressRegistration
  registration username utxo_address encryption_pubkey now = record {
    username = to_lowercase username;
    utxo_address = utxo_address;
    encryption_pubkey = encryption_pubkey;
    registered_at = now;
  }

  unfoldable pub register :
      AddressRegistry → Bytes → Bytes → Bytes → ℕ → AddressRegistry × Option AddressRegistration
  register s username utxo_address encryption_pubkey now =
      let normalized_username = to_lowercase username in
      (
        insert normalized_username (registration username utxo_address encryption_pubkey now) s,
        lookup normalized_username s,
      )

  unfoldable pub resolve : AddressRegistry → Bytes → Option AddressRegistration
  resolve s username = lookup (to_lowercase username) s

  unfoldable pub unregister : AddressRegistry → Bytes → AddressRegistry × Option AddressRegistration
  unregister s username =
      let normalized = to_lowercase username in (remove normalized s, lookup normalized s)

  -- After `register` a name resolves to the new registration when it has the same lower case, and
  -- as before otherwise; the result of the call is what the name resolved to.
  pub resolve-register :
      (s : AddressRegistry) (username other utxo_address encryption_pubkey : Bytes) (now : ℕ)
      → let r = register s username utxo_address encryption_pubkey now in
        (r.1 ≡ resolve s username)
        × (resolve r.0 other ≡ (
            if bytes_eq (to_lowercase username) (to_lowercase other)
            then some (registration username utxo_address encryption_pubkey now)
            else resolve s other))
  unfolding register resolve
  resolve-register s username other utxo_address encryption_pubkey now =
      (refl, lookup-insert (to_lowercase username) (to_lowercase other) _ s)

  -- After `unregister` the names with that lower case resolve to nothing, and the others as before;
  -- the result of the call is the registration that was taken out.
  pub resolve-unregister :
      (s : AddressRegistry) (username other : Bytes)
      → let r = unregister s username in
        (r.1 ≡ resolve s username)
        × (resolve r.0 other ≡ (
            if bytes_eq (to_lowercase username) (to_lowercase other)
            then none
            else resolve s other))
  unfolding unregister resolve
  resolve-unregister s username other =
      (refl, lookup-remove (to_lowercase username) (to_lowercase other) s)

-- `count` and `list_all`.
unfoldable pub count : AddressRegistry → ℕ
count s = length s

unfoldable pub list_all : AddressRegistry → List AddressRegistration
list_all s = map (λ e. e.1) s
