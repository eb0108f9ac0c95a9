-- ===== src/Zk/Links.antt =====
-- The link of pkg/zk-primitives/src/note_url.rs comes back from its text.
use cachecash.Prelude.{
  ℕ, ◌-◌, ◌^◌, ◌≤◌, ◌<◌, ◌≡◌, ◌⊎◌, refl, sym, ◌∙◌, ap, true, false, some, [], ◌∷◌, ◌++◌, Bytes,
  length, drop, replicate, leb, ◌==◌, arith, length-drop, length-append, take_of_length-append,
  drop_of_length-append, Bool-cases, inl, inr,
}
use cachecash.Zk.NoteUrl.{
  Codec, CodecLaws, NoteUrlPayload, leading_zeros, split_at, encode_psi, encode_value, encode_bytes,
  encode_activity_url_payload, decode_psi, decode_value, decode_activity_url_payload, psi_of,
}

leading_zeros-le : (bs : Bytes) → leading_zeros bs ≤ length bs
unfolding leading_zeros
leading_zeros-le [] = omega arith
leading_zeros-le (b ∷ bs) = ground (arith, leading_zeros-le bs)

-- The zeros that are left out can be put back.
replicate-leading_zeros :
    (bs : Bytes) → replicate (leading_zeros bs) 0 ++ drop (leading_zeros bs) bs ≡ bs
unfolding leading_zeros
replicate-leading_zeros [] = refl
replicate-leading_zeros (b ∷ bs) = elim (Bool-cases (b == 0)) [
  | inl z ↦
      rw (z, leading_zeros)
        (ap (◌∷◌ 0) (replicate-leading_zeros bs) ∙ ap (λ c. c ∷ bs) (zero_of b z))
  | inr n ↦ rw (n, leading_zeros) refl
]
  where
    zero_of : (b : ℕ) → (b == 0) ≡ true → 0 ≡ b
    zero_of b z = ground arith

split_at-append : (n : ℕ) (xs ys : Bytes) → length xs ≡ n → split_at n (xs ++ ys) ≡ some (xs, ys)
unfolding split_at
split_at-append n xs ys h =
    let fits : leb (length xs) (length (xs ++ ys)) ≡ true = ground (arith, length-append xs ys) in
    rw (sym h, fits, split_at)
      (ap some (rw (take_of_length-append xs ys, drop_of_length-append xs ys) refl))

module _ (D : Codec) (L : CodecLaws D) where
  decode_value-encode_value :
      (value : ℕ) (rest : Bytes)
      → value < 2 ^ 256
      → decode_value D (encode_value D value ++ rest) ≡ some (value, rest)
  unfolding decode_value encode_value
  decode_value-encode_value value rest h =
      let bs = D.to_be_bytes value in
      let small : leb (leading_zeros bs) 32 ≡ true =
        ground (arith, leading_zeros-le bs, L.size value) in
      let size : length (drop (leading_zeros bs) bs) ≡ 32 - leading_zeros bs =
        length-drop (leading_zeros bs) bs ∙ ap (λ n. n - leading_zeros bs) (L.size value) in
      rw
        (
          small,
          split_at-append (32 - leading_zeros bs) (drop (leading_zeros bs) bs) rest size,
          replicate-leading_zeros bs,
          L.element_back value h,
          decode_value,
          encode_value,
        )
        refl

  -- The three versions: where psi is, and what it is.
  version_cases :
      (p : NoteUrlPayload) (psi : ℕ)
      → psi_of D p ≡ some psi
      → (((p.version == 0) ≡ true) × (p.psi ≡ some psi))
        ⊎ ((((p.version == 0) ≡ false)
              × ((p.version == 1) ≡ true)
              × (D.keccak_psi p.private_key ≡ psi))
            ⊎ (((p.version == 0) ≡ false)
                × ((p.version == 1) ≡ false)
                × ((p.version == 2) ≡ true)
                × (D.hash_private_key_for_psi p.private_key ≡ psi)))
  unfolding psi_of
  version_cases p psi h = ground (arith, h)

  encode_psi-derived : (p : NoteUrlPayload) → (p.version == 0) ≡ false → encode_psi D p ≡ []
  unfolding encode_psi
  encode_psi-derived p n = ground (arith, n)

  encode_psi-explicit :
      (p : NoteUrlPayload) (psi : ℕ)
      → (p.version == 0) ≡ true
      → p.psi ≡ some psi
      → encode_psi D p ≡ D.to_be_bytes psi
  unfolding encode_psi
  encode_psi-explicit p psi z e = ground (arith, z, e)

  decode_psi-encode_psi :
      (p : NoteUrlPayload) (psi : ℕ) (rest : Bytes)
      → psi_of D p ≡ some psi
      → psi < 2 ^ 256
      → decode_psi D p.version p.private_key (encode_psi D p ++ rest) ≡ some (psi, rest)
  unfolding decode_psi
  decode_psi-encode_psi p psi rest h small = elim (version_cases p psi h) [
    | inl (explicit, e) ↦
        rw
          (
            encode_psi-explicit p psi explicit e,
            explicit,
            split_at-append 32 (D.to_be_bytes psi) rest (L.size psi),
            L.element_back psi small,
            decode_psi,
          )
          refl
    | inr (inl (n, one, e)) ↦ rw (encode_psi-derived p n, n, one, e, decode_psi) refl
    | inr (inr (n, m, two, e)) ↦ rw (encode_psi-derived p n, n, m, two, e, decode_psi) refl
  ]

  -- A payload of a known version comes back from its link, with its psi written out: the explicit
  -- one for version 0, and the one that the private key gives for the versions 1 and 2; when its
  -- numbers are below 2 ^ 256 and its referral code is UTF-8.
  pub decode-encode :
      (p : NoteUrlPayload) (psi : ℕ)
      → psi_of D p ≡ some psi
      → psi < 2 ^ 256
      → p.private_key < 2 ^ 256
      → p.value < 2 ^ 256
      → D.from_utf8 p.referral_code ≡ some p.referral_code
      → decode_activity_url_payload D (encode_activity_url_payload D p)
        ≡ some (record p { psi = some psi })
  unfolding decode_activity_url_payload encode_activity_url_payload encode_bytes
  decode-encode p psi h psi_small key_small value_small text =
      rw
        (
          L.bytes_back (encode_bytes D p),
          split_at-append 32 (D.to_be_bytes p.private_key)
              (encode_psi D p ++ (encode_value D p.value ++ p.referral_code))
              (L.size p.private_key),
          L.element_back p.private_key key_small,
          decode_psi-encode_psi p psi (encode_value D p.value ++ p.referral_code) h psi_small,
          decode_value-encode_value p.value p.referral_code value_small,
          text,
          decode_activity_url_payload,
          encode_activity_url_payload,
          encode_bytes,
        )
        refl
