-- ===== src/Zk/NoteUrl.antt =====
-- pkg/zk-primitives/src/note_url.rs: the payload of a payment link. The crates that it calls are
-- the record `Codec`: the 32-byte form of an element, base58, the two hashes that derive psi, and
-- the check of UTF-8. No result is a panic.
use cachecash.Prelude.{
  ℕ, suc, ◌-◌, ◌^◌, ◌<◌, ◌≡◌, Option, none, some, [], ◌∷◌, ◌++◌, Bytes, length, take, drop,
  replicate, leb, ◌==◌, if◌then◌else◌,
}
use cachecash.Zk.Note.{InputNote}
use cachecash.Zk.Utxo.{◌>>=?◌}

pub record Codec : Type 0 where
  pub to_be_bytes : ℕ → Bytes
  pub from_be_bytes : Bytes → ℕ
  pub encode : Bytes → Bytes
  pub decode : Bytes → Option Bytes
  pub keccak_psi : ℕ → ℕ
  pub hash_private_key_for_psi : ℕ → ℕ
  pub from_utf8 : Bytes → Option Bytes

-- What the code relies on: elements and base58 texts come back from their forms.
pub record CodecLaws (D : Codec) : Type 0 where
  pub size : (n : ℕ) → length (D.to_be_bytes n) ≡ 32
  pub element_back : (n : ℕ) → n < 2 ^ 256 → D.from_be_bytes (D.to_be_bytes n) ≡ n
  pub bytes_back : (b : Bytes) → D.decode (D.encode b) ≡ some b

pub record NoteUrlPayload : Type 0 where
  pub version : ℕ
  pub private_key : ℕ
  pub psi : Option ℕ
  pub value : ℕ
  pub referral_code : Bytes

-- `take_while(|b| b == 0).count()`.
unfoldable pub leading_zeros : Bytes → ℕ
leading_zeros [] = 0
leading_zeros (b ∷ bs) = let rest = leading_zeros bs in if b == 0 then suc rest else 0

-- `rest[..n]` and `rest[n..]`.
unfoldable pub split_at : ℕ → Bytes → Option (Bytes × Bytes)
split_at n rest = if leb n (length rest) then some (take n rest, drop n rest) else none

-- `rest[0]` and `rest[1..]`.
abbrev pub first_byte : Bytes → Option (ℕ × Bytes)
first_byte [] = none
first_byte (b ∷ rest) = some (b, rest)

-- `From<&InputNote>`.
unfoldable pub payload_of : InputNote → NoteUrlPayload
payload_of n = record {
  version = 2;
  private_key = n.secret_key;
  psi = none;
  value = n.note.value;
  referral_code = [];
}

module _ (D : Codec) where
  -- The psi in the payload, for version 0 alone.
  unfoldable pub encode_psi : NoteUrlPayload → Bytes
  encode_psi p = elim p.psi [
    | none ↦ []
    | some psi ↦ if p.version == 0 then D.to_be_bytes psi else []
  ]

  -- The value with its leading zeros counted.
  unfoldable pub encode_value : ℕ → Bytes
  unfolding leading_zeros
  encode_value value =
      let value_bytes = D.to_be_bytes value in
      leading_zeros value_bytes ∷ drop (leading_zeros value_bytes) value_bytes

  unfoldable pub encode_bytes : NoteUrlPayload → Bytes
  unfolding encode_psi encode_value
  encode_bytes p =
      p.version
      ∷ (D.to_be_bytes p.private_key ++ (encode_psi p ++ (encode_value p.value ++ p.referral_code)))

  unfoldable pub encode_activity_url_payload : NoteUrlPayload → Bytes
  unfolding encode_bytes
  encode_activity_url_payload p = D.encode (encode_bytes p)

  -- The match on the version while decoding.
  unfoldable pub decode_psi : ℕ → ℕ → Bytes → Option (ℕ × Bytes)
  unfolding split_at
  decode_psi version private_key rest =
      if version == 0
      then (split_at 32 rest >>=? λ s. some (D.from_be_bytes s.0, s.1))
      else if version == 1
      then some (D.keccak_psi private_key, rest)
      else if version == 2
      then some (D.hash_private_key_for_psi private_key, rest)
      else none

  unfoldable pub decode_value : Bytes → Option (ℕ × Bytes)
  unfolding split_at
  decode_value rest = first_byte rest >>=? λ f.
      if leb f.0 32
      then (split_at (32 - f.0) f.1 >>=? λ s. some (D.from_be_bytes (replicate f.0 0 ++ s.0), s.1))
      else none

  unfoldable pub decode_activity_url_payload : Bytes → Option NoteUrlPayload
  unfolding decode_psi decode_value split_at
  decode_activity_url_payload payload = D.decode payload >>=? λ payload_bytes.
      first_byte payload_bytes >>=? λ v. split_at 32 v.1 >>=? λ k.
      decode_psi v.0 (D.from_be_bytes k.0) k.1 >>=? λ q. decode_value q.1 >>=? λ w.
      D.from_utf8 w.1 >>=? λ referral_code. some (record {
        version = v.0;
        private_key = D.from_be_bytes k.0;
        psi = some q.0;
        value = w.0;
        referral_code = referral_code;
      })

  -- `psi`: explicit or derived.
  unfoldable pub psi_of : NoteUrlPayload → Option ℕ
  psi_of p =
      if p.version == 0
      then p.psi
      else if p.version == 1
      then some (D.keccak_psi p.private_key)
      else if p.version == 2
      then some (D.hash_private_key_for_psi p.private_key)
      else none
