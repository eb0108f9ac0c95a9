-- ===== src/Hash/Tests.antt =====
-- The theorems on the hashes: the sponge at the numbers modulo 97 and 65 equal constants, and the
-- hash of bytes at a sum modulo 7.
use cachecash.Prelude.{
  refl, ◌⊎◌, Bytes, AreBytes-replicate, ℕ, ◌+◌, ◌*◌, ◌%◌, ◌≡◌, some, List, [], ◌∷◌, replicate,
  arith,
}
use cachecash.Hash.Bytes.{Collision, hash_bytes, hash_bytes-Collision}
use cachecash.Hash.Poseidon
use cachecash.Hash.Poseidon.{Field}
use cachecash.Hash.Poseidon.Absorbing
use cachecash.Hash.Poseidon.Absorbing.{sponge-permuted}

abbrev small : Field
small = record {
  Element = ℕ;
  zero_element = 0;
  add = λ a b. (a + b) % 97;
  mul = λ a b. (a * b) % 97;
  from_u128 = λ n. n % 97;
}

abbrev row : ℕ → Poseidon.Triple small
row n = record { first = n; second = n + 1; third = n + 3 }

abbrev matrix : Poseidon.Triple small × (Poseidon.Triple small × Poseidon.Triple small)
matrix = (row 2, (row 5, row 11))

abbrev constants : List (Poseidon.Triple small)
constants = replicate 65 (row 7)

sponge-permuted_example :
    ((s : Poseidon.Triple small) × (Absorbing.permuted small matrix constants
          (Poseidon.new_sponge small 3).state
          (4 ∷ 5 ∷ 6 ∷ [])
        ≡ some s)
      × (Absorbing.sponge small matrix constants (Poseidon.new_sponge small 3) (4 ∷ 5 ∷ 6 ∷ [])
          ≡ some (s.first)))
    × (Poseidon.poseidon_alt_hash_2 small matrix constants (1, 2)
        ≡ Absorbing.sponge small matrix constants
            (Poseidon.new_sponge small
              (small.mul (small.from_u128 2) (small.from_u128 18_446_744_073_709_551_616)))
            (1 ∷ 2 ∷ []))
sponge-permuted_example =
    sponge-permuted small matrix constants (omega arith) 3 (4 ∷ 5 ∷ 6 ∷ []) 1 2

abbrev sum_merge : ℕ → ℕ → ℕ
sum_merge left right = (left + right) % 7

abbrev ones : Bytes
ones = replicate 20 1

abbrev eights : Bytes
eights = replicate 20 8

same_sums : hash_bytes sum_merge ones ≡ hash_bytes sum_merge eights
unfolding hash_bytes
same_sums = refl

hash_bytes-Collision_example : (ones ≡ eights) ⊎ Collision sum_merge
hash_bytes-Collision_example =
    hash_bytes-Collision sum_merge ones eights refl (AreBytes-replicate 20 1 (omega arith))
      (AreBytes-replicate 20 8 (omega arith)) same_sums
