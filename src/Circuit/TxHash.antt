-- ===== src/Circuit/TxHash.antt =====
-- pkg/barretenberg/src/circuits/hyli_utxo.rs and hyli_smt_incl_proof.rs: the bytes of a transaction
-- hash from its text, by the same two functions in both files. None is a panic.
use cachecash.Prelude.{
  ℕ, ◌+◌, ◌-◌, ◌*◌, ◌/◌, ◌%◌, ◌<◌, ◌≡◌, refl, true, false, ◌&&◌, Option, none, some, [], ◌∷◌, Bytes,
  AreBytes, length, is_empty, leb, ltb, ◌==◌, if◌then◌else◌, arith,
}
use cachecash.Zk.Utxo.{◌>>=?◌}

-- `trim_end_matches('\0')`.
unfoldable pub trim_end_nulls : Bytes → Bytes
trim_end_nulls [] = []
trim_end_nulls (b ∷ bs) =
    let rest = trim_end_nulls bs in if b == 0 && is_empty rest then [] else b ∷ rest

-- `trim_start_matches("0x")`, which takes off any number of them.
unfoldable pub trim_start_0x : Bytes → Bytes
trim_start_0x (a ∷ b ∷ bs) =
    let rest = trim_start_0x bs in if a == 48 && b == 120 then rest else a ∷ b ∷ bs
trim_start_0x text = text

unfoldable pub hex_nibble : ℕ → Option ℕ
hex_nibble value =
    if leb 48 value && leb value 57
    then some (value - 48)
    else if leb 97 value && leb value 102
    then some (value - 97 + 10)
    else if leb 65 value && leb value 70
    then some (value - 65 + 10)
    else none

-- The loop over pairs of characters; the low four bits of `hi << 4` are zero.
unfoldable pub decode_pairs : Bytes → Option Bytes
unfolding hex_nibble
decode_pairs [] = some []
decode_pairs (a ∷ []) = none
decode_pairs (a ∷ b ∷ rest) = hex_nibble a >>=? λ hi.
    hex_nibble b >>=? λ lo. decode_pairs rest >>=? λ bytes. some (((16 * hi) % 256 + lo) ∷ bytes)

unfoldable pub decode_tx_hash_32 : Bytes → Option Bytes
unfolding trim_end_nulls trim_start_0x decode_pairs
decode_tx_hash_32 value =
    let normalized = trim_start_0x (trim_end_nulls value) in
    if length normalized == 64 then decode_pairs normalized else none

-- What the crate `hex` documents for its encoder: two digits for each byte, in lower case.
abbrev pub hex_digit : ℕ → ℕ
hex_digit n = if ltb n 10 then 48 + n else 87 + n

abbrev pub hex_text : Bytes → Bytes
hex_text [] = []
hex_text (b ∷ bs) = hex_digit (b / 16) ∷ hex_digit (b % 16) ∷ hex_text bs

hex_nibble-hex_digit : (n : ℕ) → n < 16 → hex_nibble (hex_digit n) ≡ some n
unfolding hex_nibble
hex_nibble-hex_digit n h = ground arith

trim_end-hex_text : (bytes : Bytes) → trim_end_nulls (hex_text bytes) ≡ hex_text bytes
unfolding trim_end_nulls
trim_end-hex_text [] = refl
trim_end-hex_text (b ∷ bs) =
    let high : (hex_digit (b / 16) == 0) ≡ false = ground arith in
    let low : (hex_digit (b % 16) == 0) ≡ false = ground arith in
    rw (trim_end-hex_text bs, high, low) refl

trim_start-hex_text : (bytes : Bytes) → trim_start_0x (hex_text bytes) ≡ hex_text bytes
unfolding trim_start_0x
trim_start-hex_text [] = refl
trim_start-hex_text (b ∷ bs) =
    let low : (hex_digit (b % 16) == 120) ≡ false = ground arith in ground (arith, low)

length-hex_text : (bytes : Bytes) → length (hex_text bytes) ≡ 2 * length bytes
length-hex_text [] = refl
length-hex_text (b ∷ bs) = omega (arith, length-hex_text bs)

decode_pairs-hex_text :
    (bytes : Bytes) → AreBytes bytes → decode_pairs (hex_text bytes) ≡ some bytes
unfolding decode_pairs
decode_pairs-hex_text [] small = refl
decode_pairs-hex_text (b ∷ bs) small =
    let whole : (16 * (b / 16)) % 256 + b % 16 ≡ b = omega (arith, small.0) in
    rw
      (
        hex_nibble-hex_digit (b / 16) (omega (arith, small.0)),
        hex_nibble-hex_digit (b % 16) (omega arith),
        decode_pairs-hex_text bs (small.1),
        whole,
      )
      refl

-- A transaction hash of 32 bytes comes back from its text in hexadecimal.
pub decode_tx_hash_32-hex_text :
    (tx_hash : Bytes)
    → length tx_hash ≡ 32
    → AreBytes tx_hash
    → decode_tx_hash_32 (hex_text tx_hash) ≡ some tx_hash
unfolding decode_tx_hash_32
decode_tx_hash_32-hex_text tx_hash size small =
    let whole : (length (hex_text tx_hash) == 64) ≡ true =
      ground (arith, length-hex_text tx_hash) in
    rw
      (
        trim_end-hex_text tx_hash,
        trim_start-hex_text tx_hash,
        whole,
        decode_pairs-hex_text tx_hash small,
      )
      refl
