-- ===== src/Hash/Bytes.antt =====
-- pkg/hash/src/lib.rs: the hash of a slice of bytes. hash_merge, which calls a solver outside the
-- repository, is a parameter, and an element is its number.
use cachecash.Prelude.{
  ℕ, zero, suc, ◌+◌, ◌-◌, ◌*◌, ◌≤◌, ◌≡◌, ◌≢◌, ◌⊎◌, inl, inr, refl, ap, ◌∙◌, sym, subst, List, [],
  ◌∷◌, ◌++◌, map, Bytes, AreBytes, Bool-cases, ==_iff, ◌==◌, length, take, drop, replicate,
  length-append, length-take, length-drop, length-map, take-append-drop, take_of_length-append,
  arith,
}
use mathlib.Core.Bool.{true≢false}

-- `Element::BYTE_HASH_IV`.
abbrev pub byte_hash_iv : ℕ
byte_hash_iv = 2

-- `u128::from_be_bytes`, from the number of the bytes before.
unfoldable pub from_be_bytes_from : ℕ → Bytes → ℕ
from_be_bytes_from value [] = value
from_be_bytes_from value (b ∷ bytes) = from_be_bytes_from (256 * value + b) bytes

unfoldable pub bytes_to_element : Bytes → ℕ
unfolding from_be_bytes_from
bytes_to_element bytes = from_be_bytes_from 0 (bytes ++ replicate (16 - length bytes) 0)

-- `chunks(16)`; the fuel is the length.
unfoldable pub chunks_of_16 : ℕ → Bytes → List Bytes
chunks_of_16 zero bytes = []
chunks_of_16 (suc n) [] = []
chunks_of_16 (suc n) (b ∷ bytes) = take 16 (b ∷ bytes) ∷ chunks_of_16 n (drop 16 (b ∷ bytes))

-- `reduce`, from the first element.
unfoldable pub reduce : (ℕ → ℕ → ℕ) → ℕ → List ℕ → ℕ
reduce hash_merge left [] = left
reduce hash_merge left (right ∷ rest) = reduce hash_merge (hash_merge left right) rest

unfoldable pub hash_bytes : (ℕ → ℕ → ℕ) → Bytes → ℕ
unfolding reduce bytes_to_element chunks_of_16
hash_bytes hash_merge bytes =
    reduce hash_merge byte_hash_iv (map bytes_to_element (chunks_of_16 (length bytes) bytes))

from_be_bytes_from-injective :
    (v w : ℕ) (as' bs : Bytes)
    → length as' ≡ length bs
    → AreBytes as'
    → AreBytes bs
    → from_be_bytes_from v as' ≡ from_be_bytes_from w bs
    → (v ≡ w) × (as' ≡ bs)
unfolding from_be_bytes_from
from_be_bytes_from-injective v w [] [] size sa sb same = (same, refl)
from_be_bytes_from-injective v w [] (b ∷ bs) size sa sb same = absurd (omega (arith, size))
from_be_bytes_from-injective v w (a ∷ as') [] size sa sb same = absurd (omega (arith, size))
from_be_bytes_from-injective v w (a ∷ as') (b ∷ bs) size sa sb same =
    let (whole, rest) =
      from_be_bytes_from-injective (256 * v + a) (256 * w + b) as' bs (omega (arith, size)) (sa.1)
        (sb.1) same in
    let first : a ≡ b = omega (arith, whole, sa.0, sb.0) in
    (omega (arith, whole, sa.0, sb.0), rw (first, rest) refl)

All-take : (n : ℕ) (bytes : Bytes) → AreBytes bytes → AreBytes (take n bytes)
All-take zero bytes small = tt
All-take (suc n) [] small = tt
All-take (suc n) (b ∷ bytes) small = (small.0, All-take n bytes (small.1))

All-drop : (n : ℕ) (bytes : Bytes) → AreBytes bytes → AreBytes (drop n bytes)
All-drop zero bytes small = small
All-drop (suc n) [] small = tt
All-drop (suc n) (b ∷ bytes) small = All-drop n bytes (small.1)

All-padded : (bytes : Bytes) (n : ℕ) → AreBytes bytes → AreBytes (bytes ++ replicate n 0)
All-padded [] zero small = tt
All-padded [] (suc n) small = (omega arith, All-padded [] n tt)
All-padded (b ∷ bytes) n small = (small.0, All-padded bytes n (small.1))

bytes_to_element-injective :
    (as' bs : Bytes)
    → length as' ≡ length bs
    → AreBytes as'
    → AreBytes bs
    → bytes_to_element as' ≡ bytes_to_element bs
    → as' ≡ bs
unfolding bytes_to_element
bytes_to_element-injective as' bs size sa sb same =
    let pad = replicate (16 - length bs) 0 in
    let same' : from_be_bytes_from 0 (as' ++ pad) ≡ from_be_bytes_from 0 (bs ++ pad) =
      subst
        (λ n. from_be_bytes_from 0 (as' ++ replicate (16 - n) 0) ≡ from_be_bytes_from 0 (bs ++ pad))
        size same in
    let size' : length (as' ++ pad) ≡ length (bs ++ pad) =
      omega (arith, size, length-append as' pad, length-append bs pad) in
    let (_, padded) =
      from_be_bytes_from-injective 0 0 (as' ++ pad) (bs ++ pad) size'
        (All-padded as' (16 - length bs) sa) (All-padded bs (16 - length bs) sb) same' in
    sym (take_of_length-append as' pad)
    ∙ (ap (take (length as')) padded
        ∙ (ap (λ n. take n (bs ++ pad)) size ∙ take_of_length-append bs pad))

cons_inj : {x y : ℕ} {xs ys : List ℕ} → x ∷ xs ≡ y ∷ ys → (x ≡ y) × (xs ≡ ys)
cons_inj same = (cc, cc)

chunks_of_16-injective :
    (n : ℕ) (as' bs : Bytes)
    → length as' ≡ length bs
    → length bs ≤ n
    → AreBytes as'
    → AreBytes bs
    → map bytes_to_element (chunks_of_16 n as') ≡ map bytes_to_element (chunks_of_16 n bs)
    → as' ≡ bs
unfolding chunks_of_16
chunks_of_16-injective n [] [] size enough sa sb same = refl
chunks_of_16-injective n [] (b ∷ bs) size enough sa sb same = absurd (omega (arith, size))
chunks_of_16-injective n (a ∷ as') [] size enough sa sb same = absurd (omega (arith, size))
chunks_of_16-injective zero (a ∷ as') (b ∷ bs) size enough sa sb same =
    absurd (omega (arith, enough))
chunks_of_16-injective (suc n) (a ∷ as') (b ∷ bs) size enough sa sb same =
    let xs = a ∷ as' in
    let ys = b ∷ bs in
    let firsts : take 16 xs ≡ take 16 ys =
      bytes_to_element-injective (take 16 xs) (take 16 ys)
        (omega (arith, size, length-take 16 xs, length-take 16 ys)) (All-take 16 xs sa)
        (All-take 16 ys sb) ((cons_inj same).0) in
    let rests : drop 16 xs ≡ drop 16 ys =
      chunks_of_16-injective n (drop 16 xs) (drop 16 ys)
        (omega (arith, size, length-drop 16 xs, length-drop 16 ys))
        (omega (arith, enough, length-drop 16 ys)) (All-drop 16 xs sa) (All-drop 16 ys sb)
        ((cons_inj same).1) in
    sym (take-append-drop 16 xs)
    ∙ (ap (λ t. t ++ drop 16 xs) firsts
        ∙ (ap (λ t. take 16 ys ++ t) rests ∙ take-append-drop 16 ys))

-- Two pairs that hash_merge does not tell apart.
abbrev pub Collision : (ℕ → ℕ → ℕ) → Type 0
Collision hash_merge =
    (left : ℕ) × (right : ℕ) × (left' : ℕ) × (right' : ℕ) × ((left ≢ left') ⊎ (right ≢ right'))
    × (hash_merge left right ≡ hash_merge left' right')

same_or_not : (m n : ℕ) → (m ≡ n) ⊎ (m ≢ n)
same_or_not m n = elim (Bool-cases (m == n)) [
  | inl same ↦ inl ((==_iff m n).0 same)
  | inr other ↦ inr (λ e. true≢false (sym ((==_iff m n).1 e) ∙ other))
]

reduce-injective :
    (hash_merge : ℕ → ℕ → ℕ) (v w : ℕ) (xs ys : List ℕ)
    → length xs ≡ length ys
    → reduce hash_merge v xs ≡ reduce hash_merge w ys
    → ((v ≡ w) × (xs ≡ ys)) ⊎ Collision hash_merge
unfolding reduce
reduce-injective merge v w [] [] size same = inl (same, refl)
reduce-injective merge v w [] (y ∷ ys) size same = absurd (omega (arith, size))
reduce-injective merge v w (x ∷ xs) [] size same = absurd (omega (arith, size))
reduce-injective merge v w (x ∷ xs) (y ∷ ys) size same =
    elim (reduce-injective merge (merge v x) (merge w y) xs ys (omega (arith, size)) same) [
      | inr found ↦ inr found
      | inl equal ↦ elim (same_or_not v w) [
        | inr differ ↦ inr (v, x, w, y, inl differ, equal.0)
        | inl first ↦ elim (same_or_not x y) [
          | inr differ ↦ inr (v, x, w, y, inr differ, equal.0)
          | inl second ↦ inl (first, rw (second, equal.1) refl)
        ]
      ]
    ]

length-chunks_of_16 :
    (n : ℕ) (as' bs : Bytes)
    → length as' ≡ length bs
    → length (chunks_of_16 n as') ≡ length (chunks_of_16 n bs)
unfolding chunks_of_16
length-chunks_of_16 zero as' bs size = refl
length-chunks_of_16 (suc n) [] [] size = refl
length-chunks_of_16 (suc n) [] (b ∷ bs) size = absurd (omega (arith, size))
length-chunks_of_16 (suc n) (a ∷ as') [] size = absurd (omega (arith, size))
length-chunks_of_16 (suc n) (a ∷ as') (b ∷ bs) size = ap suc (
    length-chunks_of_16 n (drop 16 (a ∷ as')) (drop 16 (b ∷ bs))
      (omega (arith, size, length-drop 16 (a ∷ as'), length-drop 16 (b ∷ bs))))

-- Two slices of the same length with the same hash are the same slice, unless hash_merge gives the
-- same element for two different pairs.
pub hash_bytes-Collision :
    (hash_merge : ℕ → ℕ → ℕ) (as' bs : Bytes)
    → length as' ≡ length bs
    → AreBytes as'
    → AreBytes bs
    → hash_bytes hash_merge as' ≡ hash_bytes hash_merge bs
    → (as' ≡ bs) ⊎ Collision hash_merge
unfolding hash_bytes
hash_bytes-Collision hash_merge as' bs size sa sb same =
    let n = length bs in
    let left = chunks_of_16 n as' in
    let right = chunks_of_16 n bs in
    let same' : reduce hash_merge byte_hash_iv (map bytes_to_element left)
        ≡ reduce hash_merge byte_hash_iv (map bytes_to_element right) =
      subst
        (λ k.
          reduce hash_merge byte_hash_iv (map bytes_to_element (chunks_of_16 k as'))
          ≡ reduce hash_merge byte_hash_iv (map bytes_to_element right))
        size same in
    let count : length (map bytes_to_element left) ≡ length (map bytes_to_element right) =
      length-map bytes_to_element left
      ∙ (length-chunks_of_16 n as' bs size ∙ sym (length-map bytes_to_element right)) in
    elim (reduce-injective hash_merge byte_hash_iv byte_hash_iv (map bytes_to_element left)
      (map bytes_to_element right) count same') [
        | inr found ↦ inr found
        | inl equal ↦ inl (chunks_of_16-injective n as' bs size (omega arith) sa sb (equal.1))
      ]
