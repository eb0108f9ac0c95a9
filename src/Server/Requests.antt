-- ===== src/Server/Requests.antt =====
-- server/src/api.rs: the handlers of the faucet and of deposits. A handler gives the commands that
-- the bus takes and its result; the random number of the note is an argument. Trimming a text, the
-- decoder of hexadecimal, the element of 32 bytes, the token of the bridge and whether the bus takes
-- a command are parameters. The metrics are left out.
use cachecash.Prelude.{
  ℕ, Bool, true, false, not, Option, none, some, List, [], ◌∷◌, Bytes, length, is_empty, ◌==◌,
  if◌then◌else◌, Result, ok, err, ◌>>=◌, ◌>>◌, guard, ok_or,
}
use cachecash.Zk.Note.{Note}
use cachecash.Server.ApiError.{
  ApiError, bad_request, internal, amount_zero, missing_pubkey, invalid_pubkey_hex,
  invalid_pubkey_length, missing_token_contract, bus_send_failed,
}
use cachecash.Server.Validation.{strip_0x}
use cachecash.Server.Faucet.{build_note}
use cachecash.Server.Commands.{FaucetMintCommand, FaucetDepositCommand}
pub mod Granting

-- `FAUCET_MINT_AMOUNT`.
abbrev pub faucet_mint_amount : ℕ
faucet_mint_amount = 10

-- "oranj".
abbrev pub oranj : Bytes
oranj = 111 ∷ 114 ∷ 97 ∷ 110 ∷ 106 ∷ []

pub record FaucetRequest : Type 0 where
  pub pubkey_hex : Bytes
  pub amount : Option ℕ

pub record DepositRequest : Type 0 where
  pub pubkey_hex : Bytes
  pub amount : Option ℕ
  pub token_contract : Option Bytes
  pub wallet_account : Option Bytes
  pub secp256k1_blob : Option Bytes
  pub wallet_blob : Option Bytes

-- What the handlers send.
pub data Command : Type 0 where
  mint_command : FaucetMintCommand → Command
  deposit_command : FaucetDepositCommand → Command

pub record Texts : Type 0 where
  pub trim : Bytes → Bytes
  pub hex_decode : Bytes → Option Bytes
  pub from_be_bytes : Bytes → ℕ
  pub usdc : ℕ

-- The amount of a request, with the two defaults.
unfoldable pub requested_amount : ℕ → Option ℕ → ℕ
requested_amount default_amount (some amount) = amount
requested_amount default_amount none =
    if default_amount == 0 then faucet_mint_amount else default_amount

-- `unwrap_or_else(|| "oranj".to_string())`.
unfoldable pub token_or_default : Option Bytes → Bytes
token_or_default none = oranj
token_or_default (some token) = token

module _ (T : Texts) (takes : Command → Bool) where
  -- The checks of the amount and of the key, which give the key's bytes.
  unfoldable pub check_request : ℕ → Bytes → Result ApiError Bytes
  unfolding strip_0x
  check_request amount pubkey_hex = do
    guard (not (amount == 0)) (bad_request amount_zero)
    let trimmed = T.trim pubkey_hex
    guard (not (is_empty trimmed)) (bad_request missing_pubkey)
    pubkey_bytes ← ok_or (T.hex_decode (strip_0x trimmed)) (bad_request invalid_pubkey_hex)
    guard (length pubkey_bytes == 32) (bad_request invalid_pubkey_length)
    ok pubkey_bytes

  -- The end of a handler: the command, and the note as the response.
  unfoldable pub send : Command → Note → List Command × Result ApiError Note
  send command note =
      if takes command then (command ∷ [], ok note) else ([], err (internal bus_send_failed))

  unfoldable pub faucet : ℕ → FaucetRequest → ℕ → List Command × Result ApiError Note
  unfolding check_request requested_amount build_note send
  faucet default_amount request psi =
      let amount = requested_amount default_amount request.amount in
      elim (check_request amount request.pubkey_hex) [
        | err e ↦ ([], err e)
        | ok pubkey_bytes ↦
            let note = build_note T.usdc (T.from_be_bytes pubkey_bytes) amount psi in
            send (mint_command (record { amount = amount; note = note })) note
      ]

  -- What `deposit` checks: the key as in `faucet`, then the name of the token contract.
  unfoldable pub check_deposit : ℕ → DepositRequest → Result ApiError (Bytes × Bytes)
  unfolding check_request token_or_default
  check_deposit amount request = do
    pubkey_bytes ← check_request amount request.pubkey_hex
    let token_contract = T.trim (token_or_default request.token_contract)
    guard (not (is_empty token_contract)) (bad_request missing_token_contract)
    ok (pubkey_bytes, token_contract)

  unfoldable pub deposit : ℕ → DepositRequest → ℕ → List Command × Result ApiError Note
  unfolding check_deposit requested_amount build_note send
  deposit default_amount request psi =
      let amount = requested_amount default_amount request.amount in
      elim (check_deposit amount request) [
        | err e ↦ ([], err e)
        | ok (pubkey_bytes, token_contract) ↦
            let note = build_note T.usdc (T.from_be_bytes pubkey_bytes) amount psi in
            send
              (deposit_command (record {
                amount = amount;
                note = note;
                token_contract = token_contract;
                wallet_account = request.wallet_account;
                secp256k1_blob = request.secp256k1_blob;
                wallet_blob = request.wallet_blob;
              }))
              note
      ]
