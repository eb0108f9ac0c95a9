-- ===== src/Server/Validation.antt =====
-- server/src/api.rs: the checks on the texts of a request. Whether a text is hexadecimal (the crate
-- `hex`) and its lower case are parameters.
use cachecash.Prelude.{
  ◌≡◌, ◌↔◌, ◌⊎◌, refl, sym, ap, ◌∙◌, Bool, true, false, not, ◌&&◌, ◌||◌, [], ◌∷◌, Bytes, bytes_eq,
  length, is_empty, take, drop, length-take, length-drop, ◌==◌, if◌then◌else◌, Result, ok, err,
  ◌>>◌, guard, arith, inl, inr, >>=-eq-ok,
}

-- The messages of `ApiError::bad_request`.
pub data BadRequest : Type 0 where
  must_not_be_empty wrong_length not_hexadecimal bad_public_key bad_characters : BadRequest

-- `strip_prefix("0x").unwrap_or(text)`.
unfoldable pub strip_0x : Bytes → Bytes
strip_0x (a ∷ b ∷ rest) = if a == 48 && b == 120 then rest else a ∷ b ∷ rest
strip_0x text = text

module _ (is_hex : Bytes → Bool) where
  -- `validate_tag`, and `validate_utxo_address` with the same checks.
  unfoldable pub validate_tag : Bytes → Result BadRequest (Unit {0})
  unfolding strip_0x
  validate_tag tag = do
    let normalized = strip_0x tag
    guard (not (is_empty normalized)) must_not_be_empty
    guard (length normalized == 64) wrong_length
    guard (is_hex normalized) not_hexadecimal

  unfoldable pub validate_ephemeral_pubkey : Bytes → Result BadRequest (Unit {0})
  unfolding strip_0x
  validate_ephemeral_pubkey pubkey = do
    let normalized = strip_0x pubkey
    guard (not (is_empty normalized)) must_not_be_empty
    guard (length normalized == 64 || length normalized == 66 || length normalized == 130)
        wrong_length
    guard (is_hex normalized) not_hexadecimal

  module _ (to_lowercase : Bytes → Bytes) where
    -- The match on the length of the text in lower case.
    unfoldable pub x_coordinate : Bytes → Result BadRequest Bytes
    x_coordinate lowered =
        if length lowered == 64
        then ok lowered
        else if length lowered == 66
            && (bytes_eq (take 2 lowered) (48 ∷ 50 ∷ [])
                || bytes_eq (take 2 lowered) (48 ∷ 51 ∷ []))
        then ok (drop 2 lowered)
        else if length lowered == 130 && bytes_eq (take 2 lowered) (48 ∷ 52 ∷ [])
        then ok (take 64 (drop 2 lowered))
        else err bad_public_key

    unfoldable pub normalize_encryption_pubkey : Bytes → Result BadRequest Bytes
    unfolding strip_0x x_coordinate
    normalize_encryption_pubkey pubkey = do
      let normalized = strip_0x pubkey
      guard (not (is_empty normalized)) must_not_be_empty
      guard (is_hex normalized) not_hexadecimal
      x_coordinate (to_lowercase normalized)

    -- The ways through the match.
    x_coordinate-cases :
        (lowered : Bytes) {key : Bytes}
        → x_coordinate lowered ≡ ok key
        → ((lowered ≡ key) × (length lowered ≡ 64))
          ⊎ (((drop 2 lowered ≡ key) × (length lowered ≡ 66))
              ⊎ ((take 64 (drop 2 lowered) ≡ key) × (length lowered ≡ 130)))
    unfolding x_coordinate
    x_coordinate-cases lowered h = ground (arith, h)

    x_coordinate-length :
        (lowered : Bytes) {key : Bytes} → x_coordinate lowered ≡ ok key → length key ≡ 64
    x_coordinate-length lowered h = elim (x_coordinate-cases lowered h) [
      | inl (e, n) ↦ ap length (sym e) ∙ n
      | inr (inl (e, n)) ↦ ap length (sym e) ∙ omega (arith, n, length-drop 2 lowered)
      | inr (inr (e, n)) ↦
          ap length (sym e)
          ∙ omega (arith, n, length-drop 2 lowered, length-take 64 (drop 2 lowered))
    ]

    -- A key that `normalize_encryption_pubkey` returns has 64 characters, whichever of the three
    -- forms it came in.
    pub normalize_encryption_pubkey-length :
        (pubkey : Bytes) {key : Bytes}
        → normalize_encryption_pubkey pubkey ≡ ok key
        → length key ≡ 64
    unfolding normalize_encryption_pubkey
    normalize_encryption_pubkey-length pubkey h =
        let (_, _, h1) =
          >>=-eq-ok (guard (not (is_empty (strip_0x pubkey))) must_not_be_empty) _ h in
        let (_, _, h2) = >>=-eq-ok (guard (is_hex (strip_0x pubkey)) not_hexadecimal) _ h1 in
        x_coordinate-length (to_lowercase (strip_0x pubkey)) h2

  nonempty_of_64 : (text : Bytes) → length text ≡ 64 → is_empty text ≡ false
  nonempty_of_64 [] h = absurd (omega (arith, h))
  nonempty_of_64 (c ∷ text) h = refl

  -- `validate_tag` passes exactly the texts that are 64 characters of hexadecimal, with or without
  -- `0x` before them.
  pub validate_tag_iff :
      (tag : Bytes)
      → (validate_tag tag ≡ ok tt) ↔ ((length (strip_0x tag) ≡ 64) × (is_hex (strip_0x tag) ≡ true))
  unfolding validate_tag
  validate_tag_iff tag =
      (λ h. ground (arith, h), λ h. ground (arith, h, nonempty_of_64 (strip_0x tag) h.0))
