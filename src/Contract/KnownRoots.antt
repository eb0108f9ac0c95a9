-- ===== src/Contract/KnownRoots.antt =====
-- The roots that a witness of `to_zkvm_state` knows (contracts/hyli-utxo-state/src/state.rs).
use cachecash.Prelude.{
  ℕ, zero, suc, ◌-◌, ◌≤◌, ◌≡◌, refl, sym, ap, ◌∙◌, true, false, List, [], ◌∷◌, ◌++◌, Bytes,
  bytes_eq, length, take, replicate, ltb, ◌||◌, ◌&&◌, arith, Result, ok, err, >>=-eq-ok,
}
use cachecash.Contract.Smt.{H256, SparseMerkleTree}
use cachecash.Contract.Blob.{Error}
use cachecash.Contract.State.{
  ContractConfig, HyliUtxoState, HyliUtxoZkVmState, max_roots, resize, filter_keys, build_witness,
  to_zkvm_state,
}
use cachecash.Contract.ZkVm.{contains_root}

-- The fingerprint that fills the array up.
abbrev pub zero_root : Bytes
zero_root = replicate 8 0

contains_root-append :
    (r : Bytes) (xs ys : List Bytes)
    → contains_root r (xs ++ ys) ≡ (contains_root r xs || contains_root r ys)
unfolding contains_root
contains_root-append r [] ys = refl
contains_root-append r (x ∷ xs) ys = ground (arith, contains_root-append r xs ys)

contains_root-replicate :
    (r x : Bytes) (n : ℕ) → contains_root r (replicate n x) ≡ (bytes_eq x r && ltb 0 n)
unfolding contains_root
contains_root-replicate r x zero = ground arith
contains_root-replicate r x (suc n) = ground (arith, contains_root-replicate r x n)

take-replicate {ℓ} : {A : Type ℓ} (n k : ℕ) (x : A) → n ≤ k → take n (replicate k x) ≡ replicate n x
take-replicate zero k x h = refl
take-replicate (suc n) zero x h = absurd (omega (arith, h))
take-replicate (suc n) (suc k) x h = ap (◌∷◌ x) (take-replicate n k x (omega (arith, h)))

take-fill {ℓ} :
    {A : Type ℓ} (n k : ℕ) (x : A) (xs : List A)
    → length xs ≤ n
    → n ≤ k
    → take n (xs ++ replicate k x) ≡ xs ++ replicate (n - length xs) x
take-fill n k x [] h le = take-replicate n k x le ∙ ap (λ m. replicate m x) (less_zero n)
  where
    less_zero : (n : ℕ) → n ≡ n - 0
    less_zero n = omega arith
take-fill zero k x (y ∷ xs) h le = absurd (omega (arith, h))
take-fill (suc n) k x (y ∷ xs) h le = ap (◌∷◌ y) (
    take-fill n k x xs (omega (arith, h)) (omega (arith, le))
    ∙ ap (λ m. xs ++ replicate m x) (both_less n (length xs)))
  where
    both_less : (n l : ℕ) → n - l ≡ suc n - suc l
    both_less n l = omega arith

resize-fill :
    (n : ℕ) (x : Bytes) (xs : List Bytes)
    → length xs ≤ n
    → resize n x xs ≡ xs ++ replicate (n - length xs) x
unfolding resize
resize-fill n x xs h = take-fill n n x xs h (omega arith)

contains_root-resize :
    (r x : Bytes) (n : ℕ) (xs : List Bytes)
    → length xs ≤ n
    → contains_root r (resize n x xs) ≡ (contains_root r xs || (bytes_eq x r && ltb (length xs) n))
contains_root-resize r x n xs h =
    let room : ltb 0 (n - length xs) ≡ ltb (length xs) n = room_of n (length xs) h in
    ap (contains_root r) (resize-fill n x xs h)
    ∙ (contains_root-append r xs (replicate (n - length xs) x)
        ∙ ap (λ b. contains_root r xs || b)
            (contains_root-replicate r x (n - length xs) ∙ ap (λ b. bytes_eq x r && b) room))
  where
    room_of : (n l : ℕ) → l ≤ n → ltb 0 (n - l) ≡ ltb l n
    room_of n l h = ground (arith, h)

module _ (C : SparseMerkleTree) where
  to_zkvm_state-roots :
      (s : HyliUtxoState C) (config : ContractConfig) (cs ns : List H256)
      {z : HyliUtxoZkVmState C.MerkleProof}
      → to_zkvm_state C s config cs ns ≡ ok z
      → z.roots ≡ resize max_roots zero_root s.roots
  unfolding to_zkvm_state
  to_zkvm_state-roots s config cs ns h =
      let (created, _, h1) = >>=-eq-ok (build_witness C s.notes_tree (filter_keys cs false)) _ h in
      let (nullified, _, h2) =
        >>=-eq-ok (build_witness C s.nullified_tree (filter_keys ns true)) _ h1 in
      ap roots_of (sym h2)
    where
      roots_of : Result Error (HyliUtxoZkVmState C.MerkleProof) → List Bytes
      roots_of (ok z) = z.roots
      roots_of (err _) = []

  -- The witness of a state with at most a thousand roots knows the roots of the state, and beside
  -- them the zero fingerprint as long as the state has fewer than a thousand.
  pub contains_root-to_zkvm_state :
      (s : HyliUtxoState C) (config : ContractConfig) (cs ns : List H256)
      {z : HyliUtxoZkVmState C.MerkleProof} (r : Bytes)
      → length s.roots ≤ max_roots
      → to_zkvm_state C s config cs ns ≡ ok z
      → contains_root r z.roots
        ≡ (contains_root r s.roots || (bytes_eq zero_root r && ltb (length s.roots) max_roots))
  contains_root-to_zkvm_state s config cs ns r h e =
      ap (contains_root r) (to_zkvm_state-roots s config cs ns e)
      ∙ contains_root-resize r zero_root max_roots s.roots h
