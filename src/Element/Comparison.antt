-- ===== src/Element/Comparison.antt =====
-- The order of `SignedElement`, and its conversions to and from `i64`
-- (pkg/element/src/signed_element.rs).
use cachecash.Prelude.{
  ℕ, zero, suc, ◌^◌, ◌≤◌, ◌<◌, ◌≡◌, ◌↔◌, refl, ap, ◌∙◌, Bool, true, false, none, some, leb,
  if◌then◌else◌, arith, Bool-cases, inl, inr,
}
use Prim.Native.Nat.{compare}
use cachecash.Element.Int.{ℤ, pos, negsuc, compareℤ}
use cachecash.Element.Signed.{SignedElement, new, cmp}
use cachecash.Element.SignedOps.{
  unsigned_abs, i64_max, from_i64, to_i64, cmp_i64, eq_i64, as_u64, reversed,
}
use cachecash.Element.Arithmetic.{int_of, to_int, to_int-new, IsNormal}

abbrev element : Bool → ℕ → SignedElement
element negative value = record { value = value; negative = negative }

cmp_of :
    (n m : Bool) (a b : ℕ)
    → (a ≡ 0 → n ≡ false)
    → (b ≡ 0 → m ≡ false)
    → cmp (element n a) (element m b) ≡ compareℤ (int_of n a) (int_of m b)
unfolding cmp
cmp_of false false a b na nb = refl
cmp_of false true a zero na nb = cc (nb refl)
cmp_of false true a (suc b) na nb = refl
cmp_of true false zero b na nb = cc (na refl)
cmp_of true false (suc a) b na nb = refl
cmp_of true true zero b na nb = cc (na refl)
cmp_of true true (suc a) zero na nb = cc (nb refl)
cmp_of true true (suc a) (suc b) na nb = ground arith

reversed-compare : (a b : ℕ) → reversed (compare (suc a) (suc b)) ≡ compare b a
reversed-compare a b = ground arith

cmp_i64_of :
    (n : Bool) (a : ℕ) (z : ℤ)
    → (a ≡ 0 → n ≡ false)
    → a < 2 ^ 64
    → cmp_i64 (element n a) z ≡ compareℤ (int_of n a) z
unfolding cmp_i64
cmp_i64_of false a (pos b) na small = refl
cmp_i64_of false a (negsuc b) na small = refl
cmp_i64_of true zero z na small = cc (na refl)
cmp_i64_of true (suc a) (pos b) na small = refl
cmp_i64_of true (suc a) (negsuc b) na small =
    let same : as_u64 (suc a) ≡ suc a = omega (arith, small) in rw same (reversed-compare a b)

eq_i64_of :
    (n : Bool) (a : ℕ) (z : ℤ)
    → (a ≡ 0 → n ≡ false)
    → (eq_i64 (element n a) z ≡ true) ↔ (int_of n a ≡ z)
unfolding eq_i64
eq_i64_of false a (pos b) na = ground arith
eq_i64_of false a (negsuc b) na = ground arith
eq_i64_of true zero z na = absurd (cc (na refl))
eq_i64_of true (suc a) (pos b) na = ground arith
eq_i64_of true (suc a) (negsuc b) na = ground arith

to_i64_of :
    (n : Bool) (a : ℕ)
    → to_i64 (element n a) ≡ some (if leb a i64_max then some (int_of n a) else none)
unfolding to_i64
to_i64_of n a = elim (Bool-cases (leb a i64_max)) [
  | inl fits ↦ let same : as_u64 a ≡ a = ground (arith, fits) in rw (same) (ground (arith, fits))
  | inr large ↦ ground (arith, large)
]

-- The order of two signed elements with their zeros positive is that of their integers.
pub cmp-eq :
    (s t : SignedElement) → IsNormal s → IsNormal t → cmp s t ≡ compareℤ (to_int s) (to_int t)
unfolding cmp to_int
cmp-eq s t ns nt = cmp_of s.negative t.negative s.value t.value ns nt

-- Against an `i64` the order is that of the integers, when the value is below 2 ^ 64.
pub cmp_i64-eq :
    (s : SignedElement) (z : ℤ)
    → IsNormal s
    → s.value < 2 ^ 64
    → cmp_i64 s z ≡ compareℤ (to_int s) z
unfolding cmp_i64 to_int
cmp_i64-eq s z ns small = cmp_i64_of s.negative s.value z ns small

-- An element equals an `i64` exactly when they are the same integer.
pub eq_i64_iff : (s : SignedElement) (z : ℤ) → IsNormal s → (eq_i64 s z ≡ true) ↔ (to_int s ≡ z)
unfolding eq_i64 to_int
eq_i64_iff s z ns = eq_i64_of s.negative s.value z ns

-- `to_i64` never panics: it gives the integer when its absolute value is at most 2 ^ 63 - 1, and
-- nothing otherwise.
pub to_i64-eq :
    (s : SignedElement) → to_i64 s ≡ some (if leb s.value i64_max then some (to_int s) else none)
unfolding to_i64 to_int
to_i64-eq s = to_i64_of s.negative s.value

value-from_i64 : (z : ℤ) → (from_i64 z).value ≡ unsigned_abs z
unfolding from_i64 new
value-from_i64 (pos a) = ground arith
value-from_i64 (negsuc a) = ground arith

pub to_int-from_i64 : (z : ℤ) → to_int (from_i64 z) ≡ z
unfolding from_i64
to_int-from_i64 (pos a) = to_int-new a false
to_int-from_i64 (negsuc a) = to_int-new (suc a) true

-- An `i64` comes back from its signed element, when its absolute value is at most 2 ^ 63 - 1.
pub to_i64-from_i64 : (z : ℤ) → unsigned_abs z ≤ i64_max → to_i64 (from_i64 z) ≡ some (some z)
to_i64-from_i64 z fits =
    let within : leb (unsigned_abs z) i64_max ≡ true = ground (arith, fits) in
    let small : leb (from_i64 z).value i64_max ≡ true =
      ap (λ n. leb n i64_max) (value-from_i64 z) ∙ within in
    to_i64-eq (from_i64 z)
    ∙ (ap (λ b. some (if b then some (to_int (from_i64 z)) else none)) small
        ∙ ap (λ i. some (some i)) (to_int-from_i64 z))
