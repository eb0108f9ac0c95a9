-- ===== src/Zk/Tests.antt =====
-- The theorems on the primitives at concrete transactions, with sums for the hash and a number in
-- the last of 32 bytes.
use cachecash.Prelude.{
  ℕ, ◌+◌, ◌-◌, ◌*◌, ◌/◌, ◌≡◌, refl, none, some, List, [], ◌∷◌, ◌++◌, Bytes, length, replicate,
  arith,
}
use cachecash.Element.Signed.{Arith, ArithLaws}
use cachecash.Zk.Note.{padding_note, padding_input}
use cachecash.Zk.Utxo.{
  UtxoPublicInput, UtxoKindMessages, burn, Utxo, public_inputs, kind_of_inputs, kind_messages,
}
use cachecash.Zk.Messages.{IsDescribed, public_inputs-IsDescribed}
use cachecash.Zk.NoteUrl.{
  Codec, CodecLaws, NoteUrlPayload, encode_activity_url_payload, decode_activity_url_payload,
  psi_of,
}
use cachecash.Zk.Links.{decode-encode}
use cachecash.Zk.Path.{apply_leaf, last_of, compute_before_root, apply_leaf-IsPath}

abbrev exact : Arith
exact = record {
  add = λ a b. some (a + b);
  sub = λ a b. some (a - b);
  mul = λ a b. some (a * b);
  div = λ a b. some (a / b);
}

exact_laws : ArithLaws exact
exact_laws = record {
  add_exact = λ a b h. refl;
  sub_exact = λ a b h. refl;
  mul_exact = λ a b h. refl;
  div_exact = λ a b h. refl;
}

abbrev sum : List ℕ → ℕ
sum [] = 0
sum (n ∷ ns) = n + sum ns

abbrev in_last : ℕ → Bytes
in_last n = replicate 31 0 ++ n ∷ []

-- A burn of 7 out of a note of 9.
abbrev transaction : Utxo
transaction = record {
  kind = burn;
  input_notes = (
    record {
      note = record { kind = 2; contract = 4; address = 5; psi = 6; value = 9 };
      secret_key = 8;
    },
    padding_input,
  );
  output_notes = (record { kind = 2; contract = 4; address = 5; psi = 3; value = 2 }, padding_note);
  burn_address = some 11;
}

public_inputs-IsDescribed_example :
    (p : UtxoPublicInput) × (public_inputs sum exact transaction ≡ some p)
    × (kind_of_inputs in_last p ≡ some burn)
    × ((m : UtxoKindMessages) × (kind_messages in_last p ≡ some m)
        × IsDescribed sum transaction burn m)
public_inputs-IsDescribed_example =
    public_inputs-IsDescribed sum exact exact_laws in_last transaction burn refl (λ n h. refl)
      (omega arith) (omega arith) (omega arith, (11, refl))

-- A hash that keeps pairs of small numbers apart.
abbrev pair_hash : ℕ → ℕ → ℕ
pair_hash a b = 1 + 3 * a + b

apply_leaf-IsPath_example :
    (way : List ℕ) × (apply_leaf pair_hash (7 ∷ 8 ∷ []) 5 ≡ 5 ∷ way)
    × (length way ≡ 2)
    × (last_of pair_hash 5 way ≡ compute_before_root pair_hash (7 ∷ 8 ∷ []) 5)
apply_leaf-IsPath_example = apply_leaf-IsPath pair_hash (7 ∷ 8 ∷ []) 5

-- A codec that works on numbers below 256, with the text for its own base58 form.
abbrev small_codec : Codec
small_codec = record {
  to_be_bytes = λ n. replicate 31 0 ++ n ∷ [];
  from_be_bytes = λ b. sum b;
  encode = λ b. b;
  decode = λ b. some b;
  keccak_psi = λ n. n + 1;
  hash_private_key_for_psi = λ n. n + 2;
  from_utf8 = λ b. some b;
}

small_codec_laws : CodecLaws small_codec
small_codec_laws = record {
  size = λ n. refl;
  element_back = λ n h. omega arith;
  bytes_back = λ b. refl;
}

abbrev link : NoteUrlPayload
link = record { version = 2; private_key = 40; psi = none; value = 77; referral_code = 97 ∷ [] }

link-psi : psi_of small_codec link ≡ some 42
unfolding psi_of
link-psi = refl

decode-encode_example :
    decode_activity_url_payload small_codec (encode_activity_url_payload small_codec link)
    ≡ some (record link { psi = some 42 })
decode-encode_example =
    decode-encode small_codec small_codec_laws link 42 link-psi (omega arith) (omega arith)
      (omega arith) refl
