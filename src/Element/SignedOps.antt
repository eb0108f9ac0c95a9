-- ===== src/Element/SignedOps.antt =====
-- pkg/element/src/signed_element.rs: the conversions, and the operators with `Element`, `u64` and
-- `i64`. An `i64` is an integer from -(2 ^ 63) to 2 ^ 63 - 1.
use cachecash.Prelude.{
  ℕ, suc, ◌-◌, ◌%◌, ◌^◌, Bool, true, false, not, ◌&&◌, Option, none, some, ltb, ◌==◌, if◌then◌else◌,
  is_some,
}
use Prim.Native.Nat.{compare, Ordering}
use cachecash.Element.Int.{ℤ, pos, negsuc, neg_nat}
use cachecash.Element.Signed.{Arith, SignedElement, new, add, sub, mul, div}

-- `unsigned_abs`, and `< 0`.
abbrev pub unsigned_abs : ℤ → ℕ
unsigned_abs (pos a) = a
unsigned_abs (negsuc a) = suc a

abbrev pub is_negativeℤ : ℤ → Bool
is_negativeℤ (pos a) = false
is_negativeℤ (negsuc a) = true

abbrev pub i64_max : ℕ
i64_max = 2 ^ 63 - 1

-- `From<Element>`, `From<u64>` and `From<i64>`.
unfoldable pub from_element : ℕ → SignedElement
unfolding new
from_element value = new value false

unfoldable pub from_u64 : ℕ → SignedElement
unfolding new
from_u64 value = new value false

unfoldable pub from_i64 : ℤ → SignedElement
unfolding new
from_i64 value =
    if is_negativeℤ value then new (unsigned_abs value) true else new (unsigned_abs value) false

-- The operators on a second operand of another type.
module _ (U : Arith) where
  unfoldable pub add_element : SignedElement → ℕ → Option SignedElement
  add_element s rhs = add U s (from_element rhs)

  unfoldable pub sub_element : SignedElement → ℕ → Option SignedElement
  sub_element s rhs = sub U s (from_element rhs)

  unfoldable pub mul_element : SignedElement → ℕ → Option SignedElement
  mul_element s rhs = mul U s (from_element rhs)

  unfoldable pub div_element : SignedElement → ℕ → Option SignedElement
  div_element s rhs = div U s (from_element rhs)

  unfoldable pub add_u64 : SignedElement → ℕ → Option SignedElement
  add_u64 s rhs = add U s (from_u64 rhs)

  unfoldable pub sub_u64 : SignedElement → ℕ → Option SignedElement
  sub_u64 s rhs = sub U s (from_u64 rhs)

  unfoldable pub mul_u64 : SignedElement → ℕ → Option SignedElement
  mul_u64 s rhs = mul U s (from_u64 rhs)

  unfoldable pub div_u64 : SignedElement → ℕ → Option SignedElement
  div_u64 s rhs = div U s (from_u64 rhs)

  unfoldable pub add_i64 : SignedElement → ℤ → Option SignedElement
  add_i64 s rhs = add U s (from_i64 rhs)

  unfoldable pub sub_i64 : SignedElement → ℤ → Option SignedElement
  sub_i64 s rhs = sub U s (from_i64 rhs)

  unfoldable pub mul_i64 : SignedElement → ℤ → Option SignedElement
  mul_i64 s rhs = mul U s (from_i64 rhs)

  unfoldable pub div_i64 : SignedElement → ℤ → Option SignedElement
  div_i64 s rhs = div U s (from_i64 rhs)

-- `PartialEq`.
unfoldable pub eq_element : SignedElement → ℕ → Bool
eq_element s other = not s.negative && s.value == other

unfoldable pub eq_u64 : SignedElement → ℕ → Bool
eq_u64 s other = not s.negative && s.value == other

unfoldable pub eq_i64 : SignedElement → ℤ → Bool
eq_i64 s other =
    if is_negativeℤ other
    then s.negative && s.value == unsigned_abs other
    else not s.negative && s.value == unsigned_abs other

-- `as_u64`.
abbrev pub as_u64 : ℕ → ℕ
as_u64 value = value % 2 ^ 64

-- The last two steps of `to_i64`; no outer result is the panic of its `let ... else`.
abbrev pub i64_of : Bool → ℕ → Option (Option ℤ)
i64_of negative unsigned_val =
    if ltb i64_max unsigned_val
    then none
    else some (some (if negative then neg_nat unsigned_val else pos unsigned_val))

unfoldable pub to_i64 : SignedElement → Option (Option ℤ)
to_i64 s =
    if ltb i64_max s.value
    then some none
    else if not s.negative && ltb i64_max (as_u64 s.value)
    then some none
    else i64_of s.negative (as_u64 s.value)

unfoldable pub fits_in_i64 : SignedElement → Option Bool
unfolding to_i64
fits_in_i64 s = elim (to_i64 s) [ none ↦ none | some r ↦ some (is_some r) ]

-- `reverse` of an order.
abbrev pub reversed : Ordering → Ordering
reversed Ordering.lt = Ordering.gt
reversed Ordering.eq = Ordering.eq
reversed Ordering.gt = Ordering.lt

-- `PartialOrd<Element>`, `PartialOrd<u64>` and `PartialOrd<i64>`, without the `Some` of each result.
unfoldable pub cmp_element : SignedElement → ℕ → Ordering
cmp_element s other = if s.negative then Ordering.lt else compare s.value other

unfoldable pub cmp_u64 : SignedElement → ℕ → Ordering
cmp_u64 s other = if s.negative then Ordering.lt else compare s.value other

unfoldable pub cmp_i64 : SignedElement → ℤ → Ordering
cmp_i64 s other =
    if is_negativeℤ other
    then if s.negative
      then reversed (compare (as_u64 s.value) (unsigned_abs other))
      else Ordering.gt
    else if s.negative
    then Ordering.lt
    else compare s.value (unsigned_abs other)
