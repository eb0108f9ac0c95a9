-- ===== src/Element/Arithmetic.antt =====
-- `SignedElement` of pkg/element/src/signed_element.rs computes with integers.
use cachecash.Prelude.{
  ℕ, zero, suc, ◌+◌, ◌-◌, ◌*◌, ◌^◌, ◌≤◌, ◌<◌, ◌≡◌, refl, sym, ◌∙◌, Bool, true, false, not, Option,
  some, if◌then◌else◌, arith, Bool-cases, inl, inr, ◌⊎◌,
}
use Prim.Native.Nat.{compare, Ordering}
use cachecash.Element.Int.{ℤ, pos, negsuc, neg_nat, ◌+ℤ◌, neg_int, ◌*ℤ◌}
use cachecash.Element.Signed.{
  Arith, ArithLaws, SignedElement, new, neg, same_sign, new_from, add, sub, mul, signed_zero,
  is_zero,
}

-- The integer that a signed element stands for.
unfoldable pub to_int : SignedElement → ℤ
to_int s = if s.negative then neg_nat s.value else pos s.value

-- Zero has the positive sign.
abbrev pub IsNormal : SignedElement → Type 0
IsNormal s = s.value ≡ 0 → s.negative ≡ false

new-IsNormal : (value : ℕ) (negative : Bool) → IsNormal (new value negative)
unfolding new
new-IsNormal value negative = ground arith

pub to_int-new :
    (value : ℕ) (negative : Bool)
    → to_int (new value negative) ≡ (if negative then neg_nat value else pos value)
unfolding to_int new
to_int-new value negative = ground arith

to_int-neg : (s : SignedElement) → to_int (neg s) ≡ neg_int (to_int s)
unfolding to_int neg new is_zero
to_int-neg s = ground arith

-- A result that stands for an integer.
abbrev pub Computes : Option SignedElement → ℤ → Type 0
Computes r i = (s : SignedElement) × (r ≡ some s) × (to_int s ≡ i) × IsNormal s

new_from-Computes :
    (r : Option ℕ) (value : ℕ) (negative : Bool) (i : ℤ)
    → r ≡ some value
    → (if negative then neg_nat value else pos value) ≡ i
    → Computes (new_from r negative) i
unfolding new_from
new_from-Computes r value negative i h e =
    rw (h, new_from)
      (new value negative, refl, to_int-new value negative ∙ e, new-IsNormal value negative)

-- The sign and the value of an integer.
abbrev pub int_of : Bool → ℕ → ℤ
int_of negative value = if negative then neg_nat value else pos value

sum_of_same_sign :
    (n m : Bool) (a b : ℕ) → same_sign n m ≡ true → int_of n (a + b) ≡ int_of n a +ℤ int_of m b
sum_of_same_sign false false a b h = refl
sum_of_same_sign true true zero zero h = ground arith
sum_of_same_sign true true zero (suc b) h = ground arith
sum_of_same_sign true true (suc a) zero h = ground arith
sum_of_same_sign true true (suc a) (suc b) h = ground arith
sum_of_same_sign true false a b h = cc
sum_of_same_sign false true a b h = cc

-- Opposite signs: the larger value less the smaller, under the sign of the larger.
sum_of_opposite_signs :
    (n m : Bool) (a b : ℕ)
    → same_sign n m ≡ false
    → b ≤ a
    → int_of n (a - b) ≡ int_of n a +ℤ int_of m b
sum_of_opposite_signs false false a b h le = cc
sum_of_opposite_signs true true a b h le = cc
sum_of_opposite_signs true false zero zero h le = ground arith
sum_of_opposite_signs true false (suc a) b h le = ground arith
sum_of_opposite_signs true false zero (suc b) h le = absurd (omega arith)
sum_of_opposite_signs false true a zero h le = ground arith
sum_of_opposite_signs false true a (suc b) h le = ground arith

+ℤ-comm : (i j : ℤ) → i +ℤ j ≡ j +ℤ i
+ℤ-comm (pos a) (pos b) = ground arith
+ℤ-comm (pos a) (negsuc b) = refl
+ℤ-comm (negsuc a) (pos b) = refl
+ℤ-comm (negsuc a) (negsuc b) = ground arith

order_cases :
    (a b : ℕ)
    → ((compare a b ≡ Ordering.gt) × (b ≤ a))
      ⊎ (((compare a b ≡ Ordering.lt) × (a ≤ b)) ⊎ ((compare a b ≡ Ordering.eq) × (a ≡ b)))
order_cases a b = ground arith

same_sign-swap : (n m : Bool) → same_sign n m ≡ same_sign m n
same_sign-swap n m = ground arith

-- Equal values of opposite signs cancel out.
cancels : (n m : Bool) (a b : ℕ) → same_sign n m ≡ false → a ≡ b → pos 0 ≡ int_of n a +ℤ int_of m b
cancels n m a b h e =
    let zero_sum : int_of n (a - b) ≡ int_of n a +ℤ int_of m b =
      sum_of_opposite_signs n m a b h (omega (arith, e)) in
    int_of_zero n (a - b) (omega (arith, e)) ∙ zero_sum
  where
    int_of_zero : (n : Bool) (d : ℕ) → d ≡ 0 → pos 0 ≡ int_of n d
    int_of_zero n d e = ground arith

value-neg : (s : SignedElement) → (neg s).value ≡ s.value
unfolding neg new is_zero
value-neg s = ground arith

neg_nat_zero : (d : ℕ) → d ≡ 0 → neg_nat d ≡ pos d
neg_nat_zero d e = ground arith

product : (n m : Bool) (a b : ℕ) → int_of (not (same_sign n m)) (a * b) ≡ int_of n a *ℤ int_of m b
product false false a b = refl
product false true a zero = neg_nat_zero (a * 0) (omega arith)
product false true a (suc b) = refl
product true false zero b = neg_nat_zero (0 * b) (omega arith)
product true false (suc a) b = refl
product true true zero zero = refl
product true true zero (suc b) = sym (neg_nat_zero (0 * suc b) (omega arith))
product true true (suc a) zero = sym (neg_nat_zero (suc a * 0) (omega arith))
product true true (suc a) (suc b) = refl

module _ (U : Arith) (L : ArithLaws U) where
  -- `add` gives the sum of the integers, with zero as positive, when the sum of two values of the
  -- same sign is below 2 ^ 256.
  pub add-Computes :
      (s t : SignedElement)
      → (same_sign s.negative t.negative ≡ true → s.value + t.value < 2 ^ 256)
      → Computes (add U s t) (to_int s +ℤ to_int t)
  unfolding add to_int
  add-Computes s t fits = elim (Bool-cases (same_sign s.negative t.negative)) [
    | inl same ↦
        rw (same, add)
          (new_from-Computes _ (s.value + t.value) s.negative _
            (L.add_exact s.value t.value (fits same))
            (sum_of_same_sign s.negative t.negative s.value t.value same))
    | inr apart ↦ elim (order_cases s.value t.value) [
      | inl (larger, le) ↦
          rw (apart, larger, add)
            (new_from-Computes _ (s.value - t.value) s.negative _ (L.sub_exact s.value t.value le)
              (sum_of_opposite_signs s.negative t.negative s.value t.value apart le))
      | inr (inl (smaller, le)) ↦
          rw (apart, smaller, add)
            (new_from-Computes _ (t.value - s.value) t.negative _ (L.sub_exact t.value s.value le) (
              sum_of_opposite_signs t.negative s.negative t.value s.value
                (same_sign-swap t.negative s.negative ∙ apart) le
              ∙ +ℤ-comm (to_int t) (to_int s)))
      | inr (inr (level, e)) ↦
          rw (apart, level, add)
            (signed_zero, refl, cancels s.negative t.negative s.value t.value apart e, λ h. refl)
    ]
  ]

  -- `sub` gives the difference of the integers, when the sum of two values of opposite signs is
  -- below 2 ^ 256.
  pub sub-Computes :
      (s t : SignedElement)
      → (same_sign s.negative (neg t).negative ≡ true → s.value + t.value < 2 ^ 256)
      → Computes (sub U s t) (to_int s +ℤ neg_int (to_int t))
  unfolding sub
  sub-Computes s t fits = rw (sym (to_int-neg t)) (add-Computes s (neg t) (rw (value-neg t) fits))

  -- `mul` gives the product of the integers, when the product of the values is below 2 ^ 256.
  pub mul-Computes :
      (s t : SignedElement)
      → s.value * t.value < 2 ^ 256
      → Computes (mul U s t) (to_int s *ℤ to_int t)
  unfolding mul to_int
  mul-Computes s t fits =
      new_from-Computes _ (s.value * t.value) _ _ (L.mul_exact s.value t.value fits)
        (product s.negative t.negative s.value t.value)
