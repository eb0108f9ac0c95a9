-- ===== src/Element/Signed.antt =====
-- pkg/element/src/signed_element.rs: `SignedElement`. An `Element` is a number below 2 ^ 256; the
-- arithmetic of the crate `ethnum` on it is the record `Arith`, where no result is a panic.
use cachecash.Prelude.{
  ℕ, ◌+◌, ◌-◌, ◌*◌, ◌/◌, ◌^◌, ◌≤◌, ◌<◌, ◌≡◌, ◌≢◌, Bool, true, false, not, ◌&&◌, Option, none, some,
  ◌==◌, if◌then◌else◌,
}
use Prim.Native.Nat.{compare, Ordering}

-- `U256` of `ethnum`: an overflow may panic or wrap, by the build.
pub record Arith : Type 0 where
  pub add : ℕ → ℕ → Option ℕ
  pub sub : ℕ → ℕ → Option ℕ
  pub mul : ℕ → ℕ → Option ℕ
  pub div : ℕ → ℕ → Option ℕ

-- Where the exact result is a 256-bit number, it is the result.
pub record ArithLaws (U : Arith) : Type 0 where
  pub add_exact : (a b : ℕ) → a + b < 2 ^ 256 → U.add a b ≡ some (a + b)
  pub sub_exact : (a b : ℕ) → b ≤ a → U.sub a b ≡ some (a - b)
  pub mul_exact : (a b : ℕ) → a * b < 2 ^ 256 → U.mul a b ≡ some (a * b)
  pub div_exact : (a b : ℕ) → b ≢ 0 → U.div a b ≡ some (a / b)

pub record SignedElement : Type 0 where
  pub value : ℕ
  pub negative : Bool

-- `SignedElement::new`: zero has the positive sign.
unfoldable pub new : ℕ → Bool → SignedElement
new value negative =
    if value == 0
    then record { value = value; negative = false }
    else record { value = value; negative = negative }

unfoldable pub positive : ℕ → SignedElement
unfolding new
positive value = new value false

unfoldable pub negative_of : ℕ → SignedElement
unfolding new
negative_of value = new value true

abbrev pub signed_zero : SignedElement
signed_zero = record { value = 0; negative = false }

abbrev pub signed_one : SignedElement
signed_one = record { value = 1; negative = false }

abbrev pub neg_one : SignedElement
neg_one = record { value = 1; negative = true }

unfoldable pub is_positive : SignedElement → Bool
is_positive s = not s.negative && not (s.value == 0)

unfoldable pub is_zero : SignedElement → Bool
is_zero s = s.value == 0

unfoldable pub signum : SignedElement → SignedElement
unfolding is_zero
signum s = if is_zero s then signed_zero else if s.negative then neg_one else signed_one

unfoldable pub neg : SignedElement → SignedElement
unfolding is_zero new
neg s = if is_zero s then s else new s.value (not s.negative)

-- The equality of two signs.
abbrev pub same_sign : Bool → Bool → Bool
same_sign true b = b
same_sign false b = not b

-- `SignedElement::new(v?, negative)`.
unfoldable pub new_from : Option ℕ → Bool → Option SignedElement
unfolding new
new_from none negative = none
new_from (some value) negative = some (new value negative)

module _ (U : Arith) where
  unfoldable pub add : SignedElement → SignedElement → Option SignedElement
  unfolding new_from
  add s rhs =
      if same_sign s.negative rhs.negative
      then new_from (U.add s.value rhs.value) s.negative
      else elim (compare s.value rhs.value) [
        | Ordering.eq ↦ some signed_zero
        | Ordering.gt ↦ new_from (U.sub s.value rhs.value) s.negative
        | Ordering.lt ↦ new_from (U.sub rhs.value s.value) rhs.negative
      ]

  unfoldable pub sub : SignedElement → SignedElement → Option SignedElement
  unfolding add neg
  sub s rhs = add s (neg rhs)

  unfoldable pub mul : SignedElement → SignedElement → Option SignedElement
  unfolding new_from
  mul s rhs = new_from (U.mul s.value rhs.value) (not (same_sign s.negative rhs.negative))

  unfoldable pub div : SignedElement → SignedElement → Option SignedElement
  unfolding is_zero new_from
  div s rhs =
      if is_zero rhs
      then none
      else new_from (U.div s.value rhs.value) (not (same_sign s.negative rhs.negative))

-- `Ord::cmp`.
unfoldable pub cmp : SignedElement → SignedElement → Ordering
cmp s other = elim s.negative [
  | false ↦ elim other.negative [ false ↦ compare s.value other.value | true ↦ Ordering.gt ]
  | true ↦ elim other.negative [ false ↦ Ordering.lt | true ↦ compare other.value s.value ]
]
