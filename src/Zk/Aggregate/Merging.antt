-- ===== src/Zk/Aggregate/Merging.antt =====
-- The messages of three aggregated transactions (pkg/zk-primitives/src/agg_utxo.rs).
use cachecash.Prelude.{
  ℕ, zero, suc, ◌+◌, ◌-◌, ◌≤◌, ◌<◌, ◌≡◌, refl, sym, ap, ◌∙◌, some, List, [], ◌∷◌, ◌++◌, Bytes,
  length, length-append, get_elem?, replicate, append_assoc, arith,
}
use cachecash.Zk.Utxo.{
  UtxoKind, null, send, mint, burn, Messages, UtxoPublicInput, kind_of_inputs, kind_of_u8,
}
use cachecash.Zk.Aggregate.{
  AggUtxo, message_list, shown, write_at, write_messages, add_messages, merge_into, merged_messages,
}

get_elem?-some {ℓ} :
    {A : Type ℓ} (xs : List A) (i : ℕ) → i < length xs → (x : A) × (get_elem? xs i ≡ some x)
get_elem?-some [] i h = absurd (omega (arith, h))
get_elem?-some (x ∷ xs) zero h = (x, refl)
get_elem?-some (x ∷ xs) (suc i) h = get_elem?-some xs i (omega (arith, h))

write_at-next :
    (written : List ℕ) (old message : ℕ) (rest : List ℕ)
    → write_at (written ++ old ∷ rest) (length written) message ≡ some (written ++ message ∷ rest)
unfolding write_at
write_at-next [] old message rest = refl
write_at-next (w ∷ written) old message rest =
    rw (write_at-next written old message rest, write_at) refl

-- As many zeros as there are messages.
abbrev zeros : List ℕ → List ℕ
zeros [] = []
zeros (m ∷ messages) = 0 ∷ zeros messages

zeros-replicate :
    (messages : List ℕ) (n : ℕ)
    → length messages ≤ n
    → replicate n 0 ≡ zeros messages ++ replicate (n - length messages) 0
zeros-replicate [] n h = ap (λ k. replicate k 0) (omega arith)
zeros-replicate (m ∷ messages) zero h = absurd (omega (arith, h))
zeros-replicate (m ∷ messages) (suc n) h = ap (◌∷◌ 0) (
    zeros-replicate messages n (omega (arith, h))
    ∙ ap (λ k. zeros messages ++ replicate k 0) (omega arith))

zeros-append : (xs ys : List ℕ) → zeros (xs ++ ys) ≡ zeros xs ++ zeros ys
zeros-append [] ys = refl
zeros-append (x ∷ xs) ys = ap (◌∷◌ 0) (zeros-append xs ys)

write_messages-step :
    (array written : List ℕ) (index m : ℕ) (messages : List ℕ)
    → write_at array index m ≡ some written
    → write_messages array index (m ∷ messages) ≡ write_messages written (index + 1) messages
unfolding write_messages
write_messages-step array written index m messages e = rw (e, write_messages) refl

-- The inner loop writes its messages over zeros.
write_messages-zeros :
    (messages written rest : List ℕ)
    → write_messages (written ++ (zeros messages ++ rest)) (length written) messages
      ≡ some (written ++ (messages ++ rest), length written + length messages)
unfolding write_messages
write_messages-zeros [] written rest = ap (λ n. some (written ++ rest, n)) (omega arith)
write_messages-zeros (m ∷ messages) written rest =
    let further = written ++ m ∷ [] in
    let moved : length written + 1 ≡ length further =
      omega (arith, length-append written (m ∷ [])) in
    let one_more : (xs : List ℕ) → written ++ m ∷ xs ≡ further ++ xs =
      λ xs. sym (append_assoc written (m ∷ []) xs) in
    let total : length further + length messages ≡ length written + suc (length messages) =
      omega (arith, length-append written (m ∷ [])) in
    write_messages-step _ _ (length written) m messages
      (write_at-next written 0 m (zeros messages ++ rest))
    ∙ rw (moved, one_more (zeros messages ++ rest))
        (write_messages-zeros messages further rest
          ∙ rw (← one_more (messages ++ rest), total) refl)

length-shown : (kind : UtxoKind) (m : Messages) → length (shown kind m) ≤ 5
unfolding shown message_list
length-shown null m = omega arith
length-shown send m = omega arith
length-shown mint m = omega arith
length-shown burn m = omega arith

module _ (to_be_bytes : ℕ → Bytes) (size : (n : ℕ) → length (to_be_bytes n) ≡ 32) where
  kind_of_inputs-some :
      (p : UtxoPublicInput) → (kind : UtxoKind) × (kind_of_inputs to_be_bytes p ≡ some kind)
  unfolding kind_of_inputs
  kind_of_inputs-some p =
      let (b, e) =
        get_elem?-some (to_be_bytes (p.messages.message0)) 31
          (omega (arith, size (p.messages.message0))) in
      (kind_of_u8 b, rw e refl)

  -- One round of the outer loop.
  add_messages-zeros :
      (p : UtxoPublicInput) (kind : UtxoKind) (written rest : List ℕ)
      → kind_of_inputs to_be_bytes p ≡ some kind
      → add_messages to_be_bytes
          (written ++ (zeros (shown kind p.messages) ++ rest), length written)
          p
        ≡ some
            ((written ++ shown kind p.messages) ++ rest, length (written ++ shown kind p.messages))
  unfolding add_messages
  add_messages-zeros p kind written rest e =
      let found = shown kind (p.messages) in
      rw e (
        write_messages-zeros found written rest
        ∙ rw (← append_assoc written found rest, length-append written found) refl)

  -- The messages that the three transactions show, in their order.
  abbrev pub shown_by : AggUtxo → UtxoKind → UtxoKind → UtxoKind → List ℕ
  shown_by a k0 k1 k2 =
      shown k0 (a.proof_0.utxo_proof.public_inputs.messages)
      ++ (shown k1 (a.proof_1.utxo_proof.public_inputs.messages)
          ++ shown k2 (a.proof_2.utxo_proof.public_inputs.messages))

  length-shown_by : (a : AggUtxo) (k0 k1 k2 : UtxoKind) → length (shown_by a k0 k1 k2) ≤ 15
  length-shown_by a k0 k1 k2 =
      let s0 = shown k0 (a.proof_0.utxo_proof.public_inputs.messages) in
      let s1 = shown k1 (a.proof_1.utxo_proof.public_inputs.messages) in
      let s2 = shown k2 (a.proof_2.utxo_proof.public_inputs.messages) in
      omega (
        arith,
        length-append s0 (s1 ++ s2),
        length-append s1 s2,
        length-shown k0 (a.proof_0.utxo_proof.public_inputs.messages),
        length-shown k1 (a.proof_1.utxo_proof.public_inputs.messages),
        length-shown k2 (a.proof_2.utxo_proof.public_inputs.messages),
      )

  -- The outer loop on zeros for all the messages.
  merge_into-zeros :
      (a : AggUtxo) (k0 k1 k2 : UtxoKind) (rest : List ℕ)
      → kind_of_inputs to_be_bytes a.proof_0.utxo_proof.public_inputs ≡ some k0
      → kind_of_inputs to_be_bytes a.proof_1.utxo_proof.public_inputs ≡ some k1
      → kind_of_inputs to_be_bytes a.proof_2.utxo_proof.public_inputs ≡ some k2
      → merge_into to_be_bytes (zeros (shown_by a k0 k1 k2) ++ rest) a
        ≡ some (shown_by a k0 k1 k2 ++ rest)
  unfolding merge_into
  merge_into-zeros a k0 k1 k2 rest e0 e1 e2 =
      let p0 = a.proof_0.utxo_proof.public_inputs in
      let p1 = a.proof_1.utxo_proof.public_inputs in
      let p2 = a.proof_2.utxo_proof.public_inputs in
      let s0 = shown k0 (p0.messages) in
      let s1 = shown k1 (p1.messages) in
      let s2 = shown k2 (p2.messages) in
      let split : zeros (s0 ++ (s1 ++ s2)) ++ rest ≡ zeros s0 ++ (zeros s1 ++ (zeros s2 ++ rest)) =
        rw
          (
            zeros-append s0 (s1 ++ s2),
            zeros-append s1 s2,
            append_assoc (zeros s0) (zeros s1 ++ zeros s2) rest,
            append_assoc (zeros s1) (zeros s2) rest,
          )
          refl in
      rw
        (
          split,
          add_messages-zeros p0 k0 [] (zeros s1 ++ (zeros s2 ++ rest)) e0,
          add_messages-zeros p1 k1 s0 (zeros s2 ++ rest) e1,
          add_messages-zeros p2 k2 (s0 ++ s1) rest e2,
          append_assoc s0 s1 s2,
        )
        refl

  -- The messages of three aggregated transactions can always be computed: each transaction has a
  -- kind, and the fifteen messages are those that the transactions show by their kinds, one behind
  -- the other, with zeros behind them. An element has 32 bytes.
  pub merged_messages-eq :
      (a : AggUtxo)
      → (k0 : UtxoKind) × (k1 : UtxoKind) × (k2 : UtxoKind) × (kind_of_inputs to_be_bytes
            a.proof_0.utxo_proof.public_inputs
          ≡ some k0)
        × (kind_of_inputs to_be_bytes a.proof_1.utxo_proof.public_inputs ≡ some k1)
        × (kind_of_inputs to_be_bytes a.proof_2.utxo_proof.public_inputs ≡ some k2)
        × (length (shown_by a k0 k1 k2) ≤ 15)
        × (merged_messages to_be_bytes a
            ≡ some (shown_by a k0 k1 k2 ++ replicate (15 - length (shown_by a k0 k1 k2)) 0))
  unfolding merged_messages
  merged_messages-eq a =
      let (k0, e0) = kind_of_inputs-some (a.proof_0.utxo_proof.public_inputs) in
      let (k1, e1) = kind_of_inputs-some (a.proof_1.utxo_proof.public_inputs) in
      let (k2, e2) = kind_of_inputs-some (a.proof_2.utxo_proof.public_inputs) in
      let all = shown_by a k0 k1 k2 in
      let few = length-shown_by a k0 k1 k2 in
      (
        k0,
        k1,
        k2,
        e0,
        e1,
        e2,
        few,
        ap (λ array. merge_into to_be_bytes array a) (zeros-replicate all 15 few)
            ∙ merge_into-zeros a k0 k1 k2 (replicate (15 - length all) 0) e0 e1 e2,
      )
