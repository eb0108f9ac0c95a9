-- ===== src/Contract/Roots.antt =====
-- `update_roots` and the window of roots of contracts/hyli-utxo-state/src/state.rs.
use cachecash.Prelude.{
  ℕ, zero, suc, ◌≤◌, ◌≡◌, refl, sym, ap, ◌∙◌, List, [], ◌∷◌, Bytes, length, take, take_of_length-le,
  length-take, ltb, ltb→lt, inl, inr, Bool-cases, arith, if◌then◌else◌,
}
use cachecash.Contract.Smt.{SparseMerkleTree}
use cachecash.Contract.State.{HyliUtxoState, max_roots, pop_back, update_roots}

pop_back-take {ℓ} : {A : Type ℓ} (n : ℕ) (xs : List A) → length xs ≡ suc n → pop_back xs ≡ take n xs
unfolding pop_back
pop_back-take n [] h = absurd (omega (arith, h))
pop_back-take zero (x ∷ []) h = refl
pop_back-take (suc n) (x ∷ []) h = absurd (omega (arith, h))
pop_back-take zero (x ∷ y ∷ xs) h = absurd (omega (arith, h))
pop_back-take (suc n) (x ∷ y ∷ xs) h = ap (◌∷◌ x) (pop_back-take n (y ∷ xs) (omega (arith, h)))

take-take {ℓ} : {A : Type ℓ} (n : ℕ) (xs : List A) → take n (take (suc n) xs) ≡ take n xs
take-take zero xs = refl
take-take (suc n) [] = refl
take-take (suc n) (x ∷ xs) = ap (◌∷◌ x) (take-take n xs)

-- One push into a window of `suc n` entries.
push-take {ℓ} :
    {A : Type ℓ} (n : ℕ) (x : A) (xs : List A) → take (suc n) (x ∷ take (suc n) xs) ≡ x ∷ take n xs
push-take n x xs = ap (◌∷◌ x) (take-take n xs)

-- What `update_roots` does to a deque: push, and pop when it is over the bound.
unfoldable pub push_bounded {ℓ} : {A : Type ℓ} → ℕ → A → List A → List A
unfolding pop_back
push_bounded n x xs = if ltb n (length (x ∷ xs)) then pop_back (x ∷ xs) else x ∷ xs

push_bounded-take {ℓ} :
    {A : Type ℓ} (n : ℕ) (x : A) (xs : List A)
    → length xs ≤ n
    → push_bounded n x xs ≡ take n (x ∷ xs)
unfolding push_bounded
push_bounded-take n x xs h = elim (Bool-cases (ltb n (length (x ∷ xs)))) [
  | inl over ↦
      rw (over, push_bounded)
        (pop_back-take n (x ∷ xs) (omega (arith, h, ltb→lt n (length (x ∷ xs)) over)))
  | inr within ↦
      rw (within, push_bounded) (sym (take_of_length-le n (x ∷ xs) (ground (arith, h, within))))
]

take-take_self {ℓ} :
    {A : Type ℓ} (n : ℕ) (x : A) (xs : List A) → take n (x ∷ take n xs) ≡ take n (x ∷ xs)
take-take_self zero x xs = refl
take-take_self (suc n) x xs = push-take n x xs

module _ (C : SparseMerkleTree) where
  -- The roots of a state are the newest of a history of note roots, the last first.
  abbrev pub IsWindow : HyliUtxoState C → List Bytes → Type 0
  IsWindow s history = s.roots ≡ take max_roots history

  update_roots-roots :
      (s : HyliUtxoState C)
      → (update_roots C s).roots
        ≡ push_bounded max_roots (take 8 (C.tree_root s.notes_tree)) s.roots
  unfolding update_roots push_bounded
  update_roots-roots s = refl

  -- `update_roots` puts the fingerprint of the current note root in front and keeps the newest
  -- thousand of the whole history, whatever their number was.
  pub update_roots-IsWindow :
      (s : HyliUtxoState C) (history : List Bytes)
      → IsWindow s history
      → IsWindow (update_roots C s) (take 8 (C.tree_root s.notes_tree) ∷ history)
  update_roots-IsWindow s history h =
      let root = take 8 (C.tree_root s.notes_tree) in
      let bounded : length s.roots ≤ max_roots =
        rw h (omega (arith, length-take max_roots history)) in
      update_roots-roots s
      ∙ (push_bounded-take max_roots root s.roots bounded
          ∙ (ap (λ l. take max_roots (root ∷ l)) h ∙ take-take_self max_roots root history))
