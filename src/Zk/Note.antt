-- ===== src/Zk/Note.antt =====
-- pkg/zk-primitives/src/note.rs and input_note.rs. An `Element` is a number; the hash of pkg/hash
-- on a list of elements is the parameter `hash_merge`, and the note kind of the bridged token, from
-- its contract address, the parameter `usdc`. Randomness is an argument.
use cachecash.Prelude.{ℕ, Bool, ◌&&◌, List, [], ◌∷◌, ◌==◌, if◌then◌else◌}

pub record Note : Type 0 where
  pub kind : ℕ
  pub contract : ℕ
  pub address : ℕ
  pub psi : ℕ
  pub value : ℕ

pub record InputNote : Type 0 where
  pub note : Note
  pub secret_key : ℕ

-- `new_with_psi`, and `new` with the random number for psi.
unfoldable pub new_with_psi : ℕ → ℕ → ℕ → ℕ → Note
new_with_psi usdc address value psi = record {
  kind = 2;
  contract = usdc;
  address = address;
  psi = psi;
  value = value;
}

abbrev pub padding_note : Note
padding_note = record { kind = 2; contract = 0; address = 0; psi = 0; value = 0 }

unfoldable pub is_padding_note : Note → Bool
is_padding_note n = n.contract == 0 && n.value == 0

abbrev pub padding_input : InputNote
padding_input = record { note = padding_note; secret_key = 0 }

unfoldable pub commitment : (List ℕ → ℕ) → Note → ℕ
commitment hash_merge n =
    if n.value == 0
    then 0
    else hash_merge (n.kind ∷ n.contract ∷ n.value ∷ n.address ∷ n.psi ∷ 0 ∷ 0 ∷ [])
