-- ===== src/Zk/Utxo.antt =====
-- pkg/zk-primitives/src/utxo.rs. The arithmetic of elements is the record `Arith` of
-- `Element.Signed`; no result is a panic.
use cachecash.Prelude.{
  ℕ, Option, none, some, List, [], ◌∷◌, ◌++◌, Bytes, get_elem?, ◌==◌, if◌then◌else◌,
}
use cachecash.Element.Signed.{Arith}
use cachecash.Zk.Note.{Note, InputNote, padding_note, padding_input, commitment}

pub data UtxoKind : Type 0 where
  null send mint burn : UtxoKind

-- `From<u8> for UtxoKind` and back.
unfoldable pub kind_of_u8 : ℕ → UtxoKind
kind_of_u8 n = if n == 1 then send else if n == 2 then mint else if n == 3 then burn else null

unfoldable pub u8_of_kind : UtxoKind → ℕ
u8_of_kind send = 1
u8_of_kind mint = 2
u8_of_kind burn = 3
u8_of_kind null = 0

pub record Utxo : Type 0 where
  pub kind : UtxoKind
  pub input_notes : InputNote × InputNote
  pub output_notes : Note × Note
  pub burn_address : Option ℕ

unfoldable pub new_send : InputNote × InputNote → Note × Note → Utxo
new_send input_notes output_notes = record {
  kind = send;
  input_notes = input_notes;
  output_notes = output_notes;
  burn_address = none;
}

unfoldable pub new_burn : InputNote × InputNote → ℕ → Utxo
new_burn input_notes evm_address = record {
  kind = burn;
  input_notes = input_notes;
  output_notes = (padding_note, padding_note);
  burn_address = some evm_address;
}

unfoldable pub new_mint : Note × Note → Utxo
new_mint output_notes = record {
  kind = mint;
  input_notes = (padding_input, padding_input);
  output_notes = output_notes;
  burn_address = none;
}

unfoldable pub new_padding : Utxo
new_padding = record {
  kind = null;
  input_notes = (padding_input, padding_input);
  output_notes = (padding_note, padding_note);
  burn_address = none;
}

-- The five messages.
pub record Messages : Type 0 where
  pub message0 : ℕ
  pub message1 : ℕ
  pub message2 : ℕ
  pub message3 : ℕ
  pub message4 : ℕ

pub record UtxoPublicInput : Type 0 where
  pub input_commitments : ℕ × ℕ
  pub output_commitments : ℕ × ℕ
  pub messages : Messages

pub data UtxoKindMessages : Type 0 where
  no_messages : UtxoKindMessages
  burn_messages : (note_kind value burn_hash burn_address : ℕ) → UtxoKindMessages
  mint_messages : (note_kind value mint_hash : ℕ) → UtxoKindMessages

infixl 5 ◌>>=?◌
-- The next step of a computation that may panic.
abbrev pub ◌>>=?◌ {ℓ κ} : {A : Type ℓ} {B : Type κ} → Option A → (A → Option B) → Option B
none >>=? next = none
some value >>=? next = next value

module _ (hash_merge : List ℕ → ℕ) where
  unfoldable pub mint_hash : Utxo → ℕ
  mint_hash u = hash_merge (u.output_notes.0.psi ∷ u.output_notes.1.psi ∷ [])

  unfoldable pub burn_hash : Utxo → ℕ
  unfolding commitment
  burn_hash u = commitment hash_merge u.input_notes.0.note

  -- `input_commitments` and `output_commitments` of `public_inputs`; `leaf_elements` is both.
  unfoldable pub input_commitments : Utxo → ℕ × ℕ
  input_commitments u =
      (commitment hash_merge u.input_notes.0.note, commitment hash_merge u.input_notes.1.note)

  unfoldable pub output_commitments : Utxo → ℕ × ℕ
  output_commitments u =
      (commitment hash_merge u.output_notes.0, commitment hash_merge u.output_notes.1)

  unfoldable pub leaf_elements : Utxo → List ℕ
  unfolding input_commitments output_commitments
  leaf_elements u =
      (input_commitments u).0
      ∷ (input_commitments u).1
      ∷ (output_commitments u).0
      ∷ (output_commitments u).1
      ∷ []

  module _ (U : Arith) where
    unfoldable pub input_value : Utxo → Option ℕ
    input_value u = U.add u.input_notes.0.note.value u.input_notes.1.note.value

    unfoldable pub output_value : Utxo → Option ℕ
    output_value u = U.add u.output_notes.0.value u.output_notes.1.value

    unfoldable pub messages : Utxo → Option Messages
    unfolding mint_hash burn_hash input_value output_value
    messages u = elim u.kind [
      | send ↦
          some (record { message0 = 1; message1 = 0; message2 = 0; message3 = 0; message4 = 0 })
      | mint ↦ output_value u >>=? λ o. input_value u >>=? λ i. U.sub o i >>=? λ d. some (record {
        message0 = 2;
        message1 = u.output_notes.0.contract;
        message2 = d;
        message3 = mint_hash u;
        message4 = 0;
      })
      | burn ↦ input_value u >>=? λ i. output_value u >>=? λ o. U.sub i o >>=? λ d.
          u.burn_address >>=? λ a. some (record {
            message0 = 3;
            message1 = u.input_notes.0.note.contract;
            message2 = d;
            message3 = burn_hash u;
            message4 = a;
          })
      | null ↦
          some (record { message0 = 0; message1 = 0; message2 = 0; message3 = 0; message4 = 0 })
    ]

    unfoldable pub public_inputs : Utxo → Option UtxoPublicInput
    unfolding messages input_commitments output_commitments
    public_inputs u = messages u >>=? λ m. some (record {
      input_commitments = input_commitments u;
      output_commitments = output_commitments u;
      messages = m;
    })

-- `kind`: the last byte of the first message, big-endian; the form of an element in 32 bytes is a
-- parameter.
module _ (to_be_bytes : ℕ → Bytes) where
  unfoldable pub kind_of_inputs : UtxoPublicInput → Option UtxoKind
  unfolding kind_of_u8
  kind_of_inputs p = get_elem? (to_be_bytes p.messages.message0) 31 >>=? λ b. some (kind_of_u8 b)

  unfoldable pub kind_messages : UtxoPublicInput → Option UtxoKindMessages
  unfolding kind_of_inputs
  kind_messages p = kind_of_inputs p >>=? λ k. elim k [
    | null ↦ some no_messages
    | send ↦ some no_messages
    | mint ↦ some (mint_messages p.messages.message1 p.messages.message2 p.messages.message3)
    | burn ↦ some (
        burn_messages p.messages.message1 p.messages.message2 p.messages.message3
          p.messages.message4)
  ]

-- `mint_burn_hash` of the messages.
unfoldable pub mint_burn_hash : UtxoKindMessages → Option ℕ
mint_burn_hash no_messages = none
mint_burn_hash (burn_messages note_kind value burn_hash burn_address) = some burn_hash
mint_burn_hash (mint_messages note_kind value mint_hash) = some mint_hash

-- `fields` and `commitments` of the public inputs.
unfoldable pub commitments : UtxoPublicInput → List ℕ
commitments p =
    p.input_commitments.0 ∷ p.input_commitments.1 ∷ p.output_commitments.0 ∷ p.output_commitments.1
    ∷ []

unfoldable pub fields : UtxoPublicInput → List ℕ
unfolding commitments
fields p =
    commitments p
    ++ (p.messages.message0 ∷ p.messages.message1 ∷ p.messages.message2 ∷ p.messages.message3
        ∷ p.messages.message4 ∷ [])
