-- ===== src/Zk/Messages.antt =====
-- The messages of a UTXO transaction, and what its public inputs say to the reader
-- (pkg/zk-primitives/src/utxo.rs).
use cachecash.Prelude.{ℕ, ◌+◌, ◌-◌, ◌^◌, ◌≤◌, ◌<◌, ◌≡◌, refl, some, List, Bytes, get_elem?, arith}
use cachecash.Element.Signed.{Arith, ArithLaws}
use cachecash.Zk.Utxo.{
  UtxoKind, null, send, mint, burn, kind_of_u8, u8_of_kind, Utxo, UtxoPublicInput, UtxoKindMessages,
  no_messages, burn_messages, mint_messages, mint_hash, burn_hash, messages, public_inputs,
  input_value, output_value, kind_of_inputs, kind_messages,
}

-- A kind comes back from its number.
kind_of_u8-u8_of_kind : (k : UtxoKind) → kind_of_u8 (u8_of_kind k) ≡ k
unfolding kind_of_u8 u8_of_kind
kind_of_u8-u8_of_kind null = refl
kind_of_u8-u8_of_kind send = refl
kind_of_u8-u8_of_kind mint = refl
kind_of_u8-u8_of_kind burn = refl

-- The values that go in and come out, exactly.
abbrev pub value_in : Utxo → ℕ
value_in u = u.input_notes.0.note.value + u.input_notes.1.note.value

abbrev pub value_out : Utxo → ℕ
value_out u = u.output_notes.0.value + u.output_notes.1.value

-- What a transaction of each kind needs: a mint creates value, and a burn destroys it and names an
-- address.
abbrev pub IsBalanced : Utxo → UtxoKind → Type 0
IsBalanced u null = Unit
IsBalanced u send = Unit
IsBalanced u mint = value_in u ≤ value_out u
IsBalanced u burn = (value_out u ≤ value_in u) × ((a : ℕ) × (u.burn_address ≡ some a))

module _ (hash_merge : List ℕ → ℕ) where
  -- What the messages of a transaction are to say.
  abbrev pub IsDescribed : Utxo → UtxoKind → UtxoKindMessages → Type 0
  IsDescribed u null m = m ≡ no_messages
  IsDescribed u send m = m ≡ no_messages
  IsDescribed u mint m =
      m
      ≡ mint_messages u.output_notes.0.contract (value_out u - value_in u) (mint_hash hash_merge u)
  IsDescribed u burn m =
      (a : ℕ) × (u.burn_address ≡ some a)
      × (m
          ≡ burn_messages u.input_notes.0.note.contract (value_in u - value_out u)
              (burn_hash hash_merge u) a)

  module _ (U : Arith) (L : ArithLaws U) (to_be_bytes : ℕ → Bytes) where
    -- The public inputs of a transaction can be computed, and the reader finds in them the kind of
    -- the transaction, and for a mint or a burn the token, the exact difference of the values, the
    -- hash and the address, when the values stay below 2 ^ 256 and fit the kind.
    pub public_inputs-IsDescribed :
        (u : Utxo) (k : UtxoKind)
        → u.kind ≡ k
        → ((n : ℕ) → n < 256 → get_elem? (to_be_bytes n) 31 ≡ some n)
        → value_in u < 2 ^ 256
        → value_out u < 2 ^ 256
        → IsBalanced u k
        → (p : UtxoPublicInput) × (public_inputs hash_merge U u ≡ some p)
          × (kind_of_inputs to_be_bytes p ≡ some k)
          × ((m : UtxoKindMessages) × (kind_messages to_be_bytes p ≡ some m) × IsDescribed u k m)
    unfolding public_inputs messages kind_of_inputs kind_messages kind_of_u8 input_value
        output_value
    public_inputs-IsDescribed u null is last fits_in fits_out b =
        let z = last 0 (omega arith) in
        rw (is, public_inputs, messages) (_, refl, rw (z) refl, (no_messages, rw (z) refl, refl))
    public_inputs-IsDescribed u send is last fits_in fits_out b =
        let z = last 1 (omega arith) in
        rw (is, public_inputs, messages) (_, refl, rw (z) refl, (no_messages, rw (z) refl, refl))
    public_inputs-IsDescribed u mint is last fits_in fits_out b =
        let z = last 2 (omega arith) in
        let o = L.add_exact u.output_notes.0.value u.output_notes.1.value fits_out in
        let i = L.add_exact u.input_notes.0.note.value u.input_notes.1.note.value fits_in in
        let d = L.sub_exact (value_out u) (value_in u) b in
        rw (is, o, i, d, public_inputs, messages, input_value, output_value)
          (_, refl, rw (z) refl, (_, rw (z) refl, refl))
    public_inputs-IsDescribed u burn is last fits_in fits_out (le, (a, named)) =
        let z = last 3 (omega arith) in
        let o = L.add_exact u.output_notes.0.value u.output_notes.1.value fits_out in
        let i = L.add_exact u.input_notes.0.note.value u.input_notes.1.note.value fits_in in
        let d = L.sub_exact (value_in u) (value_out u) le in
        rw (is, o, i, d, named, public_inputs, messages, input_value, output_value)
          (_, refl, rw (z) refl, (_, rw (z) refl, (a, refl, refl)))
