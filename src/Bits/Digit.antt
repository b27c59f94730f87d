-- ===== src/Bits/Digit.antt =====
-- One binary digit of a number, and how `|` and a single set bit change it.
use native.Mathlib.Nat.{pow-suc, div-div-eq-div-mul}
use irata.Prelude.{
  ℕ, zero, suc, ◌*◌, ◌/◌, ◌%◌, ◌^◌, max, bit_or, ◌≡◌, refl, ap, ◌∙◌, sym, arith, ◌==◌,
}
use irata.Bits.{or_digit}

-- `(n >> i) & 1`
abbrev pub digit : ℕ → ℕ → ℕ
digit n i = n / 2 ^ i % 2

digit-suc : (n i : ℕ) → digit n (suc i) ≡ digit (n / 2) i
digit-suc n i = ap (λ (m : ℕ). m % 2) (ap (λ (p : ℕ). n / p) (pow-suc 2 i) ∙ halved)
  where
    halved : n / (2 ^ i * 2) ≡ n / 2 / 2 ^ i
    halved = ap (λ (p : ℕ). n / p) (omega arith) ∙ sym (div-div-eq-div-mul n 2 (2 ^ i))

pub digit-bit_or : (i a b : ℕ) → digit (bit_or a b) i ≡ max (digit a i) (digit b i)
digit-bit_or zero a b = omega (arith, or_digit a b)
digit-bit_or (suc i) a b = omega (
  arith,
  digit-suc (bit_or a b) i,
  digit-suc a i,
  digit-suc b i,
  ap (λ (n : ℕ). digit n i) half,
  digit-bit_or i (a / 2) (b / 2),
)
  where
    half : bit_or a b / 2 ≡ bit_or (a / 2) (b / 2)
    half = omega (arith, or_digit a b)

pub digit-zero : (i : ℕ) → digit 0 i ≡ 0
digit-zero zero = refl
digit-zero (suc i) = digit-suc 0 i ∙ digit-zero i

-- The number with bit `k` alone.
pub digit-pow : (k i : ℕ) → (digit (2 ^ k) i == 1) ≡ (k == i)
digit-pow zero zero = refl
digit-pow zero (suc i) = ground (arith, digit-suc 1 i, digit-zero i)
digit-pow (suc k) zero = ground (arith, pow-suc 2 k)
digit-pow (suc k) (suc i) =
    ground (arith, digit-suc (2 ^ suc k) i, digit-pow k i, ap (λ (n : ℕ). digit n i) half)
  where
    half : 2 ^ suc k / 2 ≡ 2 ^ k
    half = omega (arith, pow-suc 2 k)
