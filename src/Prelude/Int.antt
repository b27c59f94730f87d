-- ===== src/Prelude/Int.antt =====
-- C++'s `int` as an integer over the native numbers: a value is `pos n`, or `negsuc n` for -(n + 1).
use Prim.Native.Nat.{ℕ, suc, ◌+◌, ◌-◌}
use mathlib.Core.Path.{◌≡◌}
use mathlib.Core.Bool.{Bool}
use native.Mathlib.Omega.{arith}
use irata.Prelude.Tests.{leb, ltb, ◌==◌, if◌then◌else◌}

pub data ℤ : Type 0 where
  pos negsuc : ℕ → ℤ

-- The value is the difference of the two parts.
abbrev pub pos_part : ℤ → ℕ
pos_part (pos n) = n
pos_part (negsuc n) = 0

abbrev pub neg_part : ℤ → ℕ
neg_part (pos n) = 0
neg_part (negsuc n) = suc n

-- The difference of two numbers.
abbrev pub sub_ℕ : ℕ → ℕ → ℤ
sub_ℕ a b = if leb b a then pos (a - b) else negsuc (b - a - 1)

infixl 65 ◌+ℤ◌ ◌-ℤ◌
unfoldable pub ◌+ℤ◌ : ℤ → ℤ → ℤ
a +ℤ b = sub_ℕ (pos_part a + pos_part b) (neg_part a + neg_part b)

unfoldable pub ◌-ℤ◌ : ℤ → ℤ → ℤ
a -ℤ b = sub_ℕ (pos_part a + neg_part b) (neg_part a + pos_part b)

abbrev pub leb_ℤ : ℤ → ℤ → Bool
leb_ℤ a b = leb (pos_part a + neg_part b) (pos_part b + neg_part a)

abbrev pub ltb_ℤ : ℤ → ℤ → Bool
ltb_ℤ a b = ltb (pos_part a + neg_part b) (pos_part b + neg_part a)

abbrev pub equal_ℤ : ℤ → ℤ → Bool
equal_ℤ a b = pos_part a + neg_part b == pos_part b + neg_part a

-- `std::abs`
unfoldable pub abs : ℤ → ℤ
abs a = pos (pos_part a + neg_part a)

pub sub_ℕ-eq : (a b c d : ℕ) → a + d ≡ c + b → sub_ℕ a b ≡ sub_ℕ c d
sub_ℕ-eq a b c d h = ground arith

pub abs-diff : (a b : ℕ) → abs (pos b -ℤ pos a) ≡ pos (a - b + (b - a))
unfolding abs ◌-ℤ◌
abs-diff a b = ground arith

pub sub_ℕ-minus : (a b d : ℕ) → sub_ℕ a b +ℤ (pos 0 -ℤ pos d) ≡ sub_ℕ a (b + d)
unfolding ◌+ℤ◌ ◌-ℤ◌
sub_ℕ-minus a b d = ground arith

pub sub_ℕ-plus : (a b d : ℕ) → sub_ℕ a b +ℤ pos d ≡ sub_ℕ (a + d) b
unfolding ◌+ℤ◌
sub_ℕ-plus a b d = ground arith
