-- ===== src/Server/Requests/Granting.antt =====
-- What the faucet and the deposits of server/src/api.rs send for a request.
use cachecash.Prelude.{
  ℕ, ◌<◌, ◌≡◌, ◌⊎◌, inl, inr, refl, sym, ap, ◌∙◌, Bool, true, not, some, List, [], ◌∷◌, Bytes,
  length, is_empty, ◌==◌, Result, ok, err, guard, ok_or, arith, guard-ok, ok_or-ok, ok_inj,
  >>=-eq-ok, Result-cases, Bool-cases, ==_iff, subst,
}
use cachecash.Zk.Note.{Note}
use cachecash.Server.Validation.{strip_0x}
use cachecash.Server.ApiError.{
  ApiError, bad_request, internal, amount_zero, missing_pubkey, invalid_pubkey_hex,
  invalid_pubkey_length, missing_token_contract, bus_send_failed,
}
use cachecash.Server.Faucet.{build_note}
use cachecash.Server.Requests.{
  Command, deposit_command, mint_command, FaucetRequest, DepositRequest, Texts, requested_amount,
  token_or_default, check_request, check_deposit, send, deposit, faucet,
}

positive_of_test : (n : ℕ) → not (n == 0) ≡ true → 0 < n
positive_of_test n h = ground arith

filled_of_test : (text : Bytes) → not (is_empty text) ≡ true → 0 < length text
filled_of_test [] h = absurd (cc h)
filled_of_test (c ∷ text) h = omega arith

module _ (T : Texts) (takes : Command → Bool) where
  -- A key of 32 bytes that a text stands for, and an amount that is not zero.
  abbrev pub IsGranted : ℕ → Bytes → Bytes → Type 0
  IsGranted amount pubkey_hex key =
      (0 < amount) × (T.hex_decode (strip_0x (T.trim pubkey_hex)) ≡ some key) × (length key ≡ 32)

  check_request-IsGranted :
      (amount : ℕ) (pubkey_hex key : Bytes)
      → check_request T takes amount pubkey_hex ≡ ok key
      → IsGranted amount pubkey_hex key
  unfolding check_request
  check_request-IsGranted amount pubkey_hex key e =
      let (_, positive, e1) = >>=-eq-ok (guard (not (amount == 0)) (bad_request amount_zero)) _ e in
      let (_, filled, e2) =
        >>=-eq-ok (guard (not (is_empty (T.trim pubkey_hex))) (bad_request missing_pubkey)) _ e1 in
      let (bytes, decoded, e3) =
        >>=-eq-ok
          (ok_or (T.hex_decode (strip_0x (T.trim pubkey_hex))) (bad_request invalid_pubkey_hex)) _
          e2 in
      let (_, right, e4) =
        >>=-eq-ok (guard (length bytes == 32) (bad_request invalid_pubkey_length)) _ e3 in
      let same = ok_inj e4 in
      (
        positive_of_test amount (guard-ok _ _ positive),
        ok_or-ok _ _ decoded ∙ ap some same,
        ap length (sym same) ∙ (==_iff _ _).0 (guard-ok _ _ right),
      )

  check_deposit-IsGranted :
      (amount : ℕ) (request : DepositRequest) (key token : Bytes)
      → check_deposit T takes amount request ≡ ok (key, token)
      → IsGranted amount request.pubkey_hex key
        × (T.trim (token_or_default request.token_contract) ≡ token)
        × (0 < length token)
  unfolding check_deposit
  check_deposit-IsGranted amount request key token e =
      let (bytes, checked, e1) =
        >>=-eq-ok (check_request T takes amount (request.pubkey_hex)) _ e in
      let named = T.trim (token_or_default (request.token_contract)) in
      let (_, filled, e2) =
        >>=-eq-ok (guard (not (is_empty named)) (bad_request missing_token_contract)) _ e1 in
      let same = ok_inj e2 in
      let granted = check_request-IsGranted amount (request.pubkey_hex) bytes checked in
      (
        subst (λ k. IsGranted amount (request.pubkey_hex) k) (ap (λ p. p.0) same) granted,
        ap (λ p. p.1) same,
        subst (λ t. 0 < length t) (ap (λ p. p.1) same) (filled_of_test named (guard-ok _ _ filled)),
      )

  -- Nothing was sent, or one command, whose note is the response.
  abbrev Sent : Command → Note → List Command × Result ApiError Note → Type 0
  Sent command note result =
      (result ≡ (command ∷ [], ok note)) ⊎ (result ≡ ([], err (internal bus_send_failed)))

  send-Sent : (command : Command) (note : Note) → Sent command note (send T takes command note)
  unfolding send
  send-Sent command note = elim (Bool-cases (takes command)) [
    | inl y ↦ inl (rw y refl)
    | inr n ↦ inr (rw n refl)
  ]

  -- The note for a key and an amount.
  abbrev pub note_for : Bytes → ℕ → ℕ → Note
  note_for key amount psi = build_note (T.usdc) (T.from_be_bytes key) amount psi

  abbrev pub command_for : DepositRequest → Bytes → Bytes → ℕ → ℕ → Command
  command_for request key token amount psi = deposit_command (record {
    amount = amount;
    note = note_for key amount psi;
    token_contract = token;
    wallet_account = request.wallet_account;
    secp256k1_blob = request.secp256k1_blob;
    wallet_blob = request.wallet_blob;
  })

  -- `deposit` sends nothing when it fails. When it succeeds it has sent one command, for an amount
  -- above zero and a token contract whose name is not empty after trimming; its note, which is the
  -- response too, has that amount and the address of the 32 bytes that the trimmed key decodes to.
  pub deposit-cases :
      (default_amount : ℕ) (request : DepositRequest) (psi : ℕ)
      → let amount = requested_amount default_amount request.amount in
        ((e : ApiError) × (deposit T takes default_amount request psi ≡ ([], err e)))
        ⊎ ((key : Bytes) × (token : Bytes) × IsGranted amount request.pubkey_hex key
            × (T.trim (token_or_default request.token_contract) ≡ token)
            × (0 < length token)
            × (deposit T takes default_amount request psi
                ≡ (command_for request key token amount psi ∷ [], ok (note_for key amount psi))))
  unfolding deposit
  deposit-cases default_amount request psi =
      let amount = requested_amount default_amount (request.amount) in
      elim (Result-cases (check_deposit T takes amount request)) [
        | inr (e, bad) ↦ inl (e, rw (bad, deposit) refl)
        | inl ((key, token), good) ↦
            let (granted, named, filled) = check_deposit-IsGranted amount request key token good in
            let command = command_for request key token amount psi in
            elim (send-Sent command (note_for key amount psi)) [
              | inl sent ↦ inr (key, token, granted, named, filled, rw (good, sent, deposit) refl)
              | inr lost ↦ inl (internal bus_send_failed, rw (good, lost, deposit) refl)
            ]
      ]

  -- `faucet` sends nothing when it fails. When it succeeds it has sent one command for an amount
  -- above zero; its note, which is the response too, has that amount and the address of the 32
  -- bytes that the trimmed key decodes to.
  pub faucet-cases :
      (default_amount : ℕ) (request : FaucetRequest) (psi : ℕ)
      → let amount = requested_amount default_amount request.amount in
        ((e : ApiError) × (faucet T takes default_amount request psi ≡ ([], err e)))
        ⊎ ((key : Bytes) × IsGranted amount request.pubkey_hex key
            × (faucet T takes default_amount request psi ≡ (
              mint_command (record { amount = amount; note = note_for key amount psi }) ∷ [],
              ok (note_for key amount psi),
            )))
  unfolding faucet
  faucet-cases default_amount request psi =
      let amount = requested_amount default_amount (request.amount) in
      elim (Result-cases (check_request T takes amount (request.pubkey_hex))) [
        | inr (e, bad) ↦ inl (e, rw (bad, faucet) refl)
        | inl (key, good) ↦
            let granted = check_request-IsGranted amount (request.pubkey_hex) key good in
            let note = note_for key amount psi in
            elim (send-Sent (mint_command (record { amount = amount; note = note })) note) [
              | inl sent ↦ inr (key, granted, rw (good, sent, faucet) refl)
              | inr lost ↦ inl (internal bus_send_failed, rw (good, lost, faucet) refl)
            ]
      ]
