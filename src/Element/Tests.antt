-- ===== src/Element/Tests.antt =====
-- The theorems on signed elements at concrete elements, with exact arithmetic for `U256`.
use cachecash.Prelude.{
  ◌+◌, ◌-◌, ◌*◌, ◌/◌, ◌^◌, ◌≡◌, refl, true, false, none, some, arith, leb, if◌then◌else◌,
}
use Prim.Native.Nat.{Ordering}
use cachecash.Element.Int.{negsuc, ◌+ℤ◌, ◌*ℤ◌, compareℤ}
use cachecash.Element.Signed.{Arith, ArithLaws, SignedElement, add, mul, cmp, new}
use cachecash.Element.SignedOps.{from_i64, to_i64, cmp_i64, i64_max}
use cachecash.Element.Arithmetic.{to_int, IsNormal, Computes, add-Computes, mul-Computes}
use cachecash.Element.Comparison.{cmp-eq, to_i64-eq}

abbrev exact : Arith
exact = record {
  add = λ a b. some (a + b);
  sub = λ a b. some (a - b);
  mul = λ a b. some (a * b);
  div = λ a b. some (a / b);
}

exact_laws : ArithLaws exact
exact_laws = record {
  add_exact = λ a b h. refl;
  sub_exact = λ a b h. refl;
  mul_exact = λ a b h. refl;
  div_exact = λ a b h. refl;
}

abbrev minus_seven : SignedElement
minus_seven = record { value = 7; negative = true }

abbrev five : SignedElement
five = record { value = 5; negative = false }

minus_seven-IsNormal : IsNormal minus_seven
minus_seven-IsNormal h = absurd (omega (arith, h))

five-IsNormal : IsNormal five
five-IsNormal h = refl

add-Computes_example : Computes (add exact minus_seven five) (to_int minus_seven +ℤ to_int five)
add-Computes_example = add-Computes exact exact_laws minus_seven five (λ h. omega arith)

mul-Computes_example : Computes (mul exact minus_seven five) (to_int minus_seven *ℤ to_int five)
mul-Computes_example = mul-Computes exact exact_laws minus_seven five (omega arith)

cmp-eq_example : cmp minus_seven five ≡ compareℤ (to_int minus_seven) (to_int five)
cmp-eq_example = cmp-eq minus_seven five minus_seven-IsNormal five-IsNormal

to_i64-eq_example :
    to_i64 minus_seven ≡ some (if leb 7 i64_max then some (to_int minus_seven) else none)
to_i64-eq_example = to_i64-eq minus_seven

-- The smallest `i64` does not come back.
smallest_i64 : to_i64 (from_i64 (negsuc i64_max)) ≡ some none
unfolding to_i64 from_i64 new
smallest_i64 = refl

-- -(2 ^ 64) compares as greater than -1.
large_negative : cmp_i64 (record { value = 2 ^ 64; negative = true }) (negsuc 0) ≡ Ordering.gt
unfolding cmp_i64
large_negative = refl
