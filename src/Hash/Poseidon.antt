-- ===== src/Hash/Poseidon.antt =====
-- pkg/hash/src/poseidon_alt.rs: the permutation and the sponge of `poseidon_alt_hash_2`. The field of
-- the crate acvm is the record `Field`, and the round constants and the matrix of
-- pkg/hash/src/poseidon_alt_data.rs are parameters. None is the panic of a missing constant or of an
-- index.
use cachecash.Prelude.{
  ℕ, zero, suc, ◌+◌, ◌/◌, ◌==◌, Option, none, some, List, [], ◌∷◌, if◌then◌else◌,
}
use cachecash.Zk.Utxo.{◌>>=?◌}
pub mod Absorbing

-- `FieldElement`, by the operations that the file uses.
pub record Field : Type 1 where
  pub Element : Type 0
  pub zero_element : Element
  pub add : Element → Element → Element
  pub mul : Element → Element → Element
  pub from_u128 : ℕ → Element

-- The constants: `FULL_ROUNDS`, `PARTIAL_ROUNDS` and `RATE`; `WIDTH` is three.
abbrev pub full_rounds : ℕ
full_rounds = 8

abbrev pub partial_rounds : ℕ
partial_rounds = 57

abbrev pub rate : ℕ
rate = 2

module _ (F : Field) where
  -- A state, a row of the matrix, or the constants of a round.
  pub record Triple : Type 0 where
    pub first : F.Element
    pub second : F.Element
    pub third : F.Element

  unfoldable pub sbox : F.Element → F.Element
  sbox x = let x2 = F.mul x x in let x4 = F.mul x2 x2 in F.mul x4 x

  -- The fold over a row.
  unfoldable pub apply_row : Triple → Triple → F.Element
  apply_row row state =
      F.add
        (F.add (F.add F.zero_element (F.mul row.first state.first)) (F.mul row.second state.second))
        (F.mul row.third state.third)

  -- The cache of the sponge, and how many of its two places are taken.
  pub record PoseidonSponge : Type 0 where
    pub state : Triple
    pub cache : F.Element × F.Element
    pub cache_size : ℕ

  -- `PoseidonSponge::new`.
  unfoldable pub new_sponge : F.Element → PoseidonSponge
  new_sponge initial_capacity = record {
    state = record { first = F.zero_element; second = F.zero_element; third = initial_capacity };
    cache = (F.zero_element, F.zero_element);
    cache_size = 0;
  }

  -- The first so many places of the state get the cached elements.
  unfoldable pub add_cached : Triple → F.Element × F.Element → ℕ → Triple
  add_cached s cache zero = s
  add_cached s cache (suc zero) = record s { first = F.add s.first (cache.0) }
  add_cached s cache (suc (suc n)) = record s {
    first = F.add s.first (cache.0);
    second = F.add s.second (cache.1);
  }

  -- `cache[cache_size] = input`.
  unfoldable pub write_cache :
      F.Element × F.Element → ℕ → F.Element → Option (F.Element × F.Element)
  write_cache cache zero input = some (input, cache.1)
  write_cache cache (suc zero) input = some (cache.0, input)
  write_cache cache (suc (suc n)) input = none

  -- So many rounds, each with the next constants: the state and the constants that are left.
  unfoldable pub rounds :
      (Triple → Triple → Triple) → ℕ → Triple → List Triple → Option (Triple × List Triple)
  rounds round zero state constants = some (state, constants)
  rounds round (suc n) state [] = none
  rounds round (suc n) state (c ∷ constants) = rounds round n (round state c) constants

  module _ (mds : Triple × (Triple × Triple)) (round_constants : List Triple) where
    unfoldable pub apply_mds : Triple → Triple
    unfolding apply_row
    apply_mds state = record {
      first = apply_row (mds.0) state;
      second = apply_row (mds.1.0) state;
      third = apply_row (mds.1.1) state;
    }

    unfoldable pub full_round : Triple → Triple → Triple
    unfolding apply_mds sbox
    full_round state c = apply_mds (record {
      first = sbox (F.add state.first c.first);
      second = sbox (F.add state.second c.second);
      third = sbox (F.add state.third c.third);
    })

    unfoldable pub partial_round : Triple → Triple → Triple
    unfolding apply_mds sbox
    partial_round state c = apply_mds (record {
      first = sbox (F.add state.first c.first);
      second = F.add state.second c.second;
      third = F.add state.third c.third;
    })

    unfoldable pub permute : Triple → Option Triple
    unfolding full_round partial_round rounds
    permute state = rounds full_round (full_rounds / 2) state round_constants >>=? λ begun.
        rounds partial_round partial_rounds (begun.0) (begun.1) >>=? λ middle.
        rounds full_round (full_rounds / 2) (middle.0) (middle.1) >>=? λ done. some (done.0)

    unfoldable pub perform_duplex : PoseidonSponge → Option PoseidonSponge
    unfolding permute add_cached
    perform_duplex s = permute (add_cached s.state s.cache s.cache_size) >>=? λ state.
        some (record s { state = state; cache_size = 0 })

    unfoldable pub absorb : PoseidonSponge → F.Element → Option PoseidonSponge
    unfolding perform_duplex write_cache
    absorb s input =
        if s.cache_size == rate
        then (perform_duplex s >>=? λ after. write_cache after.cache 0 input >>=? λ cache.
            some (record after { cache = cache; cache_size = 1 }))
        else (write_cache s.cache s.cache_size input >>=? λ cache.
            some (record s { cache = cache; cache_size = s.cache_size + 1 }))

    unfoldable pub squeeze : PoseidonSponge → Option F.Element
    unfolding perform_duplex
    squeeze s = perform_duplex s >>=? λ after. some after.state.first

    -- `poseidon_alt_hash_2` on two elements of the field.
    unfoldable pub poseidon_alt_hash_2 : F.Element × F.Element → Option F.Element
    unfolding new_sponge absorb squeeze
    poseidon_alt_hash_2 elements =
        let initial_capacity = F.mul (F.from_u128 2) (F.from_u128 18_446_744_073_709_551_616) in
        absorb (new_sponge initial_capacity) (elements.0) >>=? λ one.
        absorb one (elements.1) >>=? λ two. squeeze two
