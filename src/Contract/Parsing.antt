-- ===== src/Contract/Parsing.antt =====
-- `parse_hyli_utxo_blob` and `parse_hyli_smt_incl_blob` of contracts/hyli-utxo-state/src/state.rs
-- against the layouts that their comments give.
use cachecash.Prelude.{
  ◌≡◌, sym, ◌↔◌, ◌≤◌, [], ◌∷◌, ◌++◌, Bytes, length, take, drop, append_assoc, length-append,
  length-take, length-drop, take-append-drop, take_of_length-append, drop_of_length-append,
  take_of_length-le, ok, arith, ==_iff,
}
use cachecash.Contract.Blob.{
  SeparatedHyliUtxoBlob, chunks_exact, separate, parse_hyli_utxo_blob, SmtInclBlob,
  parse_hyli_smt_incl_blob,
}

-- The four words, one after the other: created notes, then nullifiers.
abbrev pub utxo_layout : SeparatedHyliUtxoBlob → Bytes
utxo_layout p = p.output_notes.0 ++ (p.output_notes.1 ++ (p.nullifiers.0 ++ p.nullifiers.1))

-- Each word has its 32 bytes.
pub record IsSized (p : SeparatedHyliUtxoBlob) : Type 0 where
  pub output0 : length p.output_notes.0 ≡ 32
  pub output1 : length p.output_notes.1 ≡ 32
  pub nullifier0 : length p.nullifiers.0 ≡ 32
  pub nullifier1 : length p.nullifiers.1 ≡ 32

-- A chunk of 32 bytes and what follows it.
module _ (a rest : Bytes) (n : length a ≡ 32) where
  take-chunk : take 32 (a ++ rest) ≡ a
  take-chunk = let e = take_of_length-append a rest in rw n at e

  drop-chunk : drop 32 (a ++ rest) ≡ rest
  drop-chunk = let e = drop_of_length-append a rest in rw n at e

length-layout : (p : SeparatedHyliUtxoBlob) → IsSized p → length (utxo_layout p) ≡ 128
length-layout p s = omega (arith, length-append {0})

-- What the indexing and the slices of the parser give on the words in a row.
words_of_layout :
    (a b c d : Bytes)
    → length a ≡ 32
    → length b ≡ 32
    → length c ≡ 32
    → length d ≡ 32
    → chunks_exact 4 (a ++ (b ++ (c ++ d))) ≡ a ∷ b ∷ c ∷ d ∷ []
unfolding chunks_exact
words_of_layout a b c d ha hb hc hd = rw (
  take-chunk a (b ++ (c ++ d)) ha,
  drop-chunk a (b ++ (c ++ d)) ha,
  take-chunk b (c ++ d) hb,
  drop-chunk b (c ++ d) hb,
  take-chunk c d hc,
  drop-chunk c d hc,
  take_of_length-le 32 d (omega arith),
)

parse-chunks :
    (bytes : Bytes)
    → length bytes ≡ 128
    → parse_hyli_utxo_blob bytes ≡ separate (chunks_exact 4 bytes)
unfolding parse_hyli_utxo_blob
parse-chunks bytes h = rw ((==_iff (length bytes) 128).1 h)

parse-layout : (p : SeparatedHyliUtxoBlob) → IsSized p → parse_hyli_utxo_blob (utxo_layout p) ≡ ok p
parse-layout p s = rw (
  parse-chunks (utxo_layout p) (length-layout p s),
  words_of_layout _ _ _ _ s.output0 s.output1 s.nullifier0 s.nullifier1,
)

-- The words of 128 bytes: their sizes, and that they make up the bytes.
chunk_sizes :
    (bytes : Bytes)
    → length bytes ≡ 128
    → (length (take 32 bytes) ≡ 32)
      × (length (take 32 (drop 32 bytes)) ≡ 32)
      × (length (take 32 (drop 32 (drop 32 bytes))) ≡ 32)
      × (length (take 32 (drop 32 (drop 32 (drop 32 bytes)))) ≡ 32)
chunk_sizes bytes h = omega (arith, length-take {0}, length-drop {0})

join_chunks :
    (bytes : Bytes)
    → length bytes ≡ 128
    → take 32 bytes
        ++ (take 32 (drop 32 bytes)
            ++ (take 32 (drop 32 (drop 32 bytes)) ++ take 32 (drop 32 (drop 32 (drop 32 bytes)))))
      ≡ bytes
join_chunks bytes h =
    let last : length (drop 32 (drop 32 (drop 32 bytes))) ≤ 32 = omega (arith, length-drop {0}) in
    rw (
      take_of_length-le 32 (drop 32 (drop 32 (drop 32 bytes))) last,
      take-append-drop 32 (drop 32 (drop 32 bytes)),
      take-append-drop 32 (drop 32 bytes),
      take-append-drop 32 bytes,
    )

-- The blob of four words that 128 bytes hold.
chunked : Bytes → SeparatedHyliUtxoBlob
chunked bytes = record {
  output_notes = (take 32 bytes, take 32 (drop 32 bytes));
  nullifiers = (take 32 (drop 32 (drop 32 bytes)), take 32 (drop 32 (drop 32 (drop 32 bytes))));
}

parse-inversion :
    (bytes : Bytes) {p : SeparatedHyliUtxoBlob}
    → parse_hyli_utxo_blob bytes ≡ ok p
    → (length bytes ≡ 128) × (p ≡ chunked bytes)
unfolding parse_hyli_utxo_blob chunked
parse-inversion bytes h = ground arith

chunked-layout :
    (bytes : Bytes)
    → length bytes ≡ 128
    → IsSized (chunked bytes) × (bytes ≡ utxo_layout (chunked bytes))
unfolding chunked
chunked-layout bytes h =
    let (a, b, c, d) = chunk_sizes bytes h in
    (record { output0 = a; output1 = b; nullifier0 = c; nullifier1 = d }, sym (join_chunks bytes h))

-- The parser accepts exactly the bytes that are four words of 32 bytes in a row, and returns them
-- in their order: the two created notes, then the two nullifiers.
pub parse_hyli_utxo_blob_iff :
    (bytes : Bytes) (p : SeparatedHyliUtxoBlob)
    → (parse_hyli_utxo_blob bytes ≡ ok p) ↔ (IsSized p × (bytes ≡ utxo_layout p))
parse_hyli_utxo_blob_iff bytes p = (
  λ h. let (size, q) = parse-inversion bytes h in rw q (chunked-layout bytes size),
  λ h. rw (h.1) (parse-layout p h.0),
)

-- The layout of the inclusion blob: two nullifiers, and the notes root by its first eight bytes
-- with the rest of it.
pub record IsSmtLayout (bytes : Bytes) (b : SmtInclBlob) (rest : Bytes) : Type 0 where
  pub nullifier0 : length b.nullifier0 ≡ 32
  pub nullifier1 : length b.nullifier1 ≡ 32
  pub fingerprint : length b.notes_root_fingerprint ≡ 8
  pub rest_size : length rest ≡ 24
  pub layout : bytes ≡ b.nullifier0 ++ (b.nullifier1 ++ (b.notes_root_fingerprint ++ rest))

pub drop_64 : (a b rest : Bytes) → length a ≡ 32 → length b ≡ 32 → drop 64 (a ++ (b ++ rest)) ≡ rest
drop_64 a b rest ha hb =
    let size : length (a ++ b) ≡ 64 = omega (arith, length-append {0}) in
    let e = drop_of_length-append (a ++ b) rest in rw (← append_assoc) (rw size at e)

-- The parser of the inclusion blob returns the two nullifiers and the first eight bytes of the
-- root of every blob in that layout.
pub parse_hyli_smt_incl_blob-layout :
    (bytes : Bytes) (b : SmtInclBlob) (rest : Bytes)
    → IsSmtLayout bytes b rest
    → parse_hyli_smt_incl_blob bytes ≡ ok b
unfolding parse_hyli_smt_incl_blob
parse_hyli_smt_incl_blob-layout bytes b rest s =
    let size : length bytes ≡ 96 = rw (s.layout) (omega (arith, length-append {0})) in
    rw (
      (==_iff (length bytes) 96).1 size,
      s.layout,
      take-chunk b.nullifier0 _ s.nullifier0,
      drop-chunk b.nullifier0 _ s.nullifier0,
      take-chunk b.nullifier1 _ s.nullifier1,
      drop_64 b.nullifier0 b.nullifier1 _ s.nullifier0 s.nullifier1,
      first_8,
    )
  where
    first_8 : take 8 (b.notes_root_fingerprint ++ rest) ≡ b.notes_root_fingerprint
    first_8 = let e = take_of_length-append b.notes_root_fingerprint rest in rw (s.fingerprint) at e
