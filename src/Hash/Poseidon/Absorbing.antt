-- ===== src/Hash/Poseidon/Absorbing.antt =====
-- What the sponge of pkg/hash/src/poseidon_alt.rs computes of a sequence of elements.
use cachecash.Prelude.{
  ℕ, zero, suc, ◌+◌, ◌≤◌, ◌≡◌, refl, Option, some, List, [], ◌∷◌, length, arith,
}
use cachecash.Zk.Utxo.{◌>>=?◌}
use cachecash.Hash.Poseidon
use cachecash.Hash.Poseidon.{Field}

module _ (F : Field) (mds : Poseidon.Triple F × (Poseidon.Triple F × Poseidon.Triple F))
    (round_constants : List (Poseidon.Triple F)) where
  -- So many rounds go through when there are as many constants.
  rounds-some :
      (round : Poseidon.Triple F → Poseidon.Triple F → Poseidon.Triple F) (n : ℕ)
      (state : Poseidon.Triple F) (constants : List (Poseidon.Triple F))
      → n ≤ length constants
      → (state' : Poseidon.Triple F) × (left : List (Poseidon.Triple F)) × (Poseidon.rounds F round
            n state constants
          ≡ some (state', left))
        × (length left + n ≡ length constants)
  unfolding Poseidon.rounds
  rounds-some round zero state constants h = (state, constants, refl, omega arith)
  rounds-some round (suc n) state [] h = absurd (omega (arith, h))
  rounds-some round (suc n) state (c ∷ constants) h =
      let (state', left, same, count) =
        rounds-some round n (round state c) constants (omega (arith, h)) in
      (state', left, same, omega (arith, count))

  abbrev pub permute : Poseidon.Triple F → Option (Poseidon.Triple F)
  permute state = Poseidon.permute F mds round_constants state

  -- The permutation does not run out of constants when there are 65.
  permute-some :
      65 ≤ length round_constants
      → (state : Poseidon.Triple F) → (state' : Poseidon.Triple F) × (permute state ≡ some state')
  unfolding Poseidon.permute
  permute-some enough state =
      let (s1, c1, e1, n1) =
        rounds-some (Poseidon.full_round F mds round_constants) 4 state round_constants
          (omega (arith, enough)) in
      let (s2, c2, e2, n2) =
        rounds-some (Poseidon.partial_round F mds round_constants) 57 s1 c1
          (omega (arith, enough, n1)) in
      let (s3, c3, e3, n3) =
        rounds-some (Poseidon.full_round F mds round_constants) 4 s2 c2
          (omega (arith, enough, n1, n2)) in
      (s3, rw (e1, e2, e3) refl)

  -- The state with one or two elements added.
  abbrev pub with_one : Poseidon.Triple F → F.Element → Poseidon.Triple F
  with_one s a = record s { first = F.add s.first a }

  abbrev pub with_two : Poseidon.Triple F → F.Element → F.Element → Poseidon.Triple F
  with_two s a b = record s { first = F.add s.first a; second = F.add s.second b }

  -- The sponge without a cache: elements are added two by two, and each pair is permuted before the
  -- next element comes.
  abbrev pub permuted : Poseidon.Triple F → List F.Element → Option (Poseidon.Triple F)
  permuted s [] = permute s
  permuted s (a ∷ []) = permute (with_one s a)
  permuted s (a ∷ b ∷ []) = permute (with_two s a b)
  permuted s (a ∷ b ∷ c ∷ rest) = permute (with_two s a b) >>=? λ s'. permuted s' (c ∷ rest)

  abbrev pub absorb_all :
      Poseidon.PoseidonSponge F → List F.Element → Option (Poseidon.PoseidonSponge F)
  absorb_all s [] = some s
  absorb_all s (a ∷ rest) = Poseidon.absorb F mds round_constants s a >>=? λ s'. absorb_all s' rest

  abbrev pub sponge : Poseidon.PoseidonSponge F → List F.Element → Option F.Element
  sponge s elements = absorb_all s elements >>=? λ s'. Poseidon.squeeze F mds round_constants s'

  abbrev cached : Poseidon.Triple F → F.Element → F.Element → Poseidon.PoseidonSponge F
  cached s a junk = record { state = s; cache = (a, junk); cache_size = 1 }

  permuted-some :
      65 ≤ length round_constants
      → (s : Poseidon.Triple F) (elements : List F.Element)
      → (s' : Poseidon.Triple F) × (permuted s elements ≡ some s')
  permuted-some enough s [] = permute-some enough s
  permuted-some enough s (a ∷ []) = permute-some enough (with_one s a)
  permuted-some enough s (a ∷ b ∷ []) = permute-some enough (with_two s a b)
  permuted-some enough s (a ∷ b ∷ c ∷ rest) =
      let (s1, e1) = permute-some enough (with_two s a b) in
      let (s2, e2) = permuted-some enough s1 (c ∷ rest) in (s2, rw e1 e2)

  sponge-cached :
      65 ≤ length round_constants
      → (s : Poseidon.Triple F) (a junk : F.Element) (rest : List F.Element)
      → (s' : Poseidon.Triple F) × (permuted s (a ∷ rest) ≡ some s')
        × (sponge (cached s a junk) rest ≡ some (s'.first))
  unfolding Poseidon.absorb Poseidon.squeeze Poseidon.perform_duplex Poseidon.add_cached
      Poseidon.write_cache
  sponge-cached enough s a junk [] =
      let (s', e) = permute-some enough (with_one s a) in (s', e, rw e refl)
  sponge-cached enough s a junk (b ∷ []) =
      let (s', e) = permute-some enough (with_two s a b) in (s', e, rw e refl)
  sponge-cached enough s a junk (b ∷ c ∷ rest) =
      let (s1, e1) = permute-some enough (with_two s a b) in
      let (s2, e2, e3) = sponge-cached enough s1 c b rest in (s2, rw e1 e2, rw e1 e3)

  -- With 65 round constants the sponge never panics, and what it squeezes out after any elements is
  -- the first place of the state to which the elements were added two by two, permuted after each
  -- pair and at the end. The hash of two elements is the sponge on them with the capacity 2^65.
  pub sponge-permuted :
      65 ≤ length round_constants
      → (capacity : F.Element) (elements : List F.Element) (a b : F.Element)
      → ((s : Poseidon.Triple F) × (permuted (Poseidon.new_sponge F capacity).state elements
            ≡ some s)
          × (sponge (Poseidon.new_sponge F capacity) elements ≡ some (s.first)))
        × (Poseidon.poseidon_alt_hash_2 F mds round_constants (a, b)
            ≡ sponge
                (Poseidon.new_sponge F
                  (F.mul (F.from_u128 2) (F.from_u128 18_446_744_073_709_551_616)))
                (a ∷ b ∷ []))
  unfolding Poseidon.absorb Poseidon.squeeze Poseidon.perform_duplex Poseidon.add_cached
      Poseidon.write_cache Poseidon.new_sponge Poseidon.poseidon_alt_hash_2
  sponge-permuted enough capacity [] a b =
      let start = (Poseidon.new_sponge F capacity).state in
      let (s', e) = permute-some enough start in ((s', e, rw e refl), refl)
  sponge-permuted enough capacity (c ∷ rest) a b =
      let start = (Poseidon.new_sponge F capacity).state in
      (sponge-cached enough start c (F.zero_element) rest, refl)
