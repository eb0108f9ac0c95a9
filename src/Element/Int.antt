-- ===== src/Element/Int.antt =====
-- The integers over the native numbers, which signed elements stand for.
use cachecash.Prelude.{ℕ, zero, suc, ◌+◌, ◌-◌, ◌*◌, leb, if◌then◌else◌}
use Prim.Native.Nat.{compare, Ordering}

pub data ℤ : Type 0 where
  pos : ℕ → ℤ
  negsuc : ℕ → ℤ

-- Minus a natural number.
abbrev pub neg_nat : ℕ → ℤ
neg_nat zero = pos 0
neg_nat (suc n) = negsuc n

infixl 20 ◌⊖◌
abbrev pub ◌⊖◌ : ℕ → ℕ → ℤ
a ⊖ b = if leb b a then pos (a - b) else neg_nat (b - a)

infixl 20 ◌+ℤ◌
abbrev pub ◌+ℤ◌ : ℤ → ℤ → ℤ
pos a +ℤ pos b = pos (a + b)
pos a +ℤ negsuc b = a ⊖ suc b
negsuc a +ℤ pos b = b ⊖ suc a
negsuc a +ℤ negsuc b = negsuc (suc (a + b))

abbrev pub neg_int : ℤ → ℤ
neg_int (pos a) = neg_nat a
neg_int (negsuc a) = pos (suc a)

infixl 30 ◌*ℤ◌
abbrev pub ◌*ℤ◌ : ℤ → ℤ → ℤ
pos a *ℤ pos b = pos (a * b)
pos a *ℤ negsuc b = neg_nat (a * suc b)
negsuc a *ℤ pos b = neg_nat (suc a * b)
negsuc a *ℤ negsuc b = pos (suc a * suc b)

-- The order of the integers.
abbrev pub compareℤ : ℤ → ℤ → Ordering
compareℤ (pos a) (pos b) = compare a b
compareℤ (pos a) (negsuc b) = Ordering.gt
compareℤ (negsuc a) (pos b) = Ordering.lt
compareℤ (negsuc a) (negsuc b) = compare b a
