-- ===== src/Bits.antt =====
-- Shifts and masks of machine words as arithmetic: the facts about `&`, `|` and `^` that the
-- components use, for every width.
pub mod Digit
use Prim.Native.Nat.{digits, bitwise, differ, bit_and-bitwise, bit_or-bitwise, bit_xor-bitwise}
use native.Mathlib.Nat.{pow-suc}
use irata.Prelude.{
  ℕ, zero, suc, ◌+◌, ◌*◌, ◌/◌, ◌%◌, ◌^◌, ◌≤◌, ◌<◌, min, max, bit_and, bit_or, bit_xor, ◌≡◌, refl,
  ap, Bool, true, not, ◌&&◌, arith, ◌==◌,
}

-- Values cut to the fixed widths.
abbrev pub u8 : ℕ → ℕ
u8 n = n % 2 ^ 8

abbrev pub u16 : ℕ → ℕ
u16 n = n % 2 ^ 16

abbrev pub u32 : ℕ → ℕ
u32 n = n % 2 ^ 32

-- `x << k` before it is cut, and `x >> k`.
abbrev pub shl : ℕ → ℕ → ℕ
shl x k = x * 2 ^ k

abbrev pub shr : ℕ → ℕ → ℕ
shr x k = x / 2 ^ k

-- Checks every value of a small range.
abbrev pub holds_below : ℕ → (ℕ → Bool) → Bool
holds_below zero p = true
holds_below (suc n) p = p n && holds_below n p

pub holds_below-at : (n : ℕ) (p : ℕ → Bool) (x : ℕ) → holds_below n p ≡ true → x < n → p x ≡ true
holds_below-at zero p x h lt = absurd (omega arith)
holds_below-at (suc n) p x h lt = ground (arith, holds_below-at n p x)

-- The native operations are a recursion on binary digits with the first operand for fuel. Any
-- fuel that reaches the operand gives the same digits.
module _ (rest : ℕ → ℕ) (digit : ℕ → ℕ → ℕ) where
  enough_digits :
      (fuel more x y : ℕ)
      → x ≤ fuel
      → x ≤ more
      → digits rest digit fuel x y ≡ digits rest digit more x y
  enough_digits zero zero x y low high = refl
  enough_digits zero (suc more) zero y low high = refl
  enough_digits (suc fuel) zero zero y low high = refl
  enough_digits (suc fuel) (suc more) zero y low high = refl
  enough_digits zero (suc more) (suc x) y low high = absurd (omega arith)
  enough_digits (suc fuel) zero (suc x) y low high = absurd (omega arith)
  enough_digits (suc fuel) (suc more) (suc x) y low high =
      rw (enough_digits fuel more (suc x / 2) (y / 2) (omega arith) (omega arith))

  lowest_digit :
      (x y : ℕ)
      → bitwise rest digit (suc x) y
        ≡ digit (suc x % 2) (y % 2) + 2 * bitwise rest digit (suc x / 2) (y / 2)
  lowest_digit x y =
      omega (arith, enough_digits x (suc x / 2) (suc x / 2) (y / 2) (omega arith) (omega arith))

-- Both operations digit by digit.
pub or_digit : (x y : ℕ) → bit_or x y ≡ bit_or (x / 2) (y / 2) * 2 + max (x % 2) (y % 2)
or_digit zero y = simp bit_or-bitwise (omega arith)
or_digit (suc x) y = simp bit_or-bitwise (omega (arith, lowest_digit (λ d. d) max x y))

pub and_digit : (x y : ℕ) → bit_and x y ≡ bit_and (x / 2) (y / 2) * 2 + min (x % 2) (y % 2)
and_digit zero y = simp bit_and-bitwise (omega arith)
and_digit (suc x) y = simp bit_and-bitwise (omega (arith, lowest_digit (λ d. 0) min x y))

-- Bounds by halving, with `n` for fuel.
or_bound : (k a b : ℕ) → a < 2 ^ k → b < 2 ^ k → bit_or a b < 2 ^ k
or_bound zero zero zero h g = omega arith
or_bound zero zero (suc b) h g = absurd (omega arith)
or_bound zero (suc a) b h g = absurd (omega arith)
or_bound (suc k) a b h g = omega (
  arith,
  or_digit a b,
  pow-suc 2 k,
  or_bound k (a / 2) (b / 2) (omega (arith, pow-suc 2 k)) (omega (arith, pow-suc 2 k)),
)

and_bound : (n a b : ℕ) → a ≤ n → bit_and a b ≤ a
and_bound n zero b h = omega (arith, bit_and-bitwise 0 b)
and_bound zero (suc a) b h = absurd (omega arith)
and_bound (suc n) (suc a) b h =
    omega (arith, and_digit (suc a) b, and_bound n (suc a / 2) (b / 2) (omega arith))

pub bit_and-le : (a b : ℕ) → bit_and a b ≤ a
bit_and-le a b = and_bound a a b (omega arith)

pub bit_or-lt : (k a b : ℕ) → a < 2 ^ k → b < 2 ^ k → bit_or a b < 2 ^ k
bit_or-lt k a b h g = or_bound k a b h g

or_zero_bound : (n a : ℕ) → a ≤ n → bit_or a 0 ≡ a
or_zero_bound n zero h = refl
or_zero_bound zero (suc a) h = absurd (omega arith)
or_zero_bound (suc n) (suc a) h =
    omega (arith, or_digit (suc a) 0, or_zero_bound n (suc a / 2) (omega arith))

pub bit_or-zero : (a : ℕ) → bit_or a 0 ≡ a
bit_or-zero a = or_zero_bound a a (omega arith)

-- `(q << k) | r` is a sum where `r` fits in `k` bits.
pub bit_or-shl : (k q r : ℕ) → r < 2 ^ k → bit_or (shl q k) r ≡ q * 2 ^ k + r
bit_or-shl zero q zero fits = omega (arith, bit_or-zero (q * 1))
bit_or-shl zero q (suc r) fits = absurd (omega arith)
bit_or-shl (suc k) q r fits = omega (
  arith,
  or_digit (q * 2 ^ suc k) r,
  twice,
  pow-suc 2 k,
  bit_or-shl k q (r / 2) (omega (arith, pow-suc 2 k)),
  halved,
)
  where
    twice : q * 2 ^ suc k ≡ 2 * (q * 2 ^ k)
    twice = omega (arith, ap (λ (t : ℕ). q * t) (pow-suc 2 k))

    halved : bit_or (q * 2 ^ suc k / 2) (r / 2) ≡ bit_or (q * 2 ^ k) (r / 2)
    halved = ap (λ (t : ℕ). bit_or t (r / 2)) (omega (arith, twice))

and_zero_bound : (n a : ℕ) → a ≤ n → bit_and a 0 ≡ 0
and_zero_bound n zero h = refl
and_zero_bound zero (suc a) h = absurd (omega arith)
and_zero_bound (suc n) (suc a) h =
    omega (arith, and_digit (suc a) 0, and_zero_bound n (suc a / 2) (omega arith))

pub bit_and-zero : (a : ℕ) → bit_and a 0 ≡ 0
bit_and-zero a = and_zero_bound a a (omega arith)

-- A mask of low bits is a remainder, one bit more at a time.
pub and_1 : (a : ℕ) → bit_and a 1 ≡ a % 2
and_1 a = omega (arith, and_digit a 1, bit_and-zero (a / 2))

and_3 : (a : ℕ) → bit_and a 3 ≡ a % 4
and_3 a = omega (arith, and_digit a 3, and_1 (a / 2))

and_0x0f : (a : ℕ) → bit_and a 0x0f ≡ a % 16
and_0x0f a = omega (arith, and_digit a 15, and_digit (a / 2) 7, and_3 (a / 2 / 2))

and_0x3f : (a : ℕ) → bit_and a 0x3f ≡ a % 64
and_0x3f a = omega (arith, and_digit a 63, and_digit (a / 2) 31, and_0x0f (a / 2 / 2))

pub and_0xff : (a : ℕ) → bit_and a 0xff ≡ a % 256
and_0xff a = omega (arith, and_digit a 255, and_digit (a / 2) 127, and_0x3f (a / 2 / 2))

pub and_0xffff : (a : ℕ) → bit_and a 0xffff ≡ a % 65536
and_0xffff a = omega (arith, and_digit a 0xffff, low_15 (a / 2))
  where
    low_10 : (b : ℕ) → bit_and b 0x3ff ≡ b % 1024
    low_10 b = omega (arith, and_digit b 0x3ff, and_digit (b / 2) 0x1ff, and_0xff (b / 2 / 2))

    low_13 : (b : ℕ) → bit_and b 0x1fff ≡ b % 8192
    low_13 b = omega (
      arith,
      and_digit b 0x1fff,
      and_digit (b / 2) 0xfff,
      and_digit (b / 2 / 2) 0x7ff,
      low_10 (b / 2 / 2 / 2),
    )

    low_15 : (b : ℕ) → bit_and b 0x7fff ≡ b % 32768
    low_15 b = omega (arith, and_digit b 0x7fff, and_digit (b / 2) 0x3fff, low_13 (b / 2 / 2))

-- One bit, still at its place.
and_0x02 : (a : ℕ) → bit_and a 0x02 ≡ a / 2 % 2 * 2
and_0x02 a = omega (arith, and_digit a 2, and_1 (a / 2))

and_0x08 : (a : ℕ) → bit_and a 0x08 ≡ a / 8 % 2 * 8
and_0x08 a = omega (arith, and_digit a 8, and_digit (a / 2) 4, and_0x02 (a / 2 / 2))

and_0x20 : (a : ℕ) → bit_and a 0x20 ≡ a / 32 % 2 * 32
and_0x20 a = omega (arith, and_digit a 32, and_digit (a / 2) 16, and_0x08 (a / 2 / 2))

pub and_0x80 : (a : ℕ) → bit_and a 0x80 ≡ a / 128 % 2 * 128
and_0x80 a = omega (arith, and_digit a 128, and_digit (a / 2) 64, and_0x20 (a / 2 / 2))

differ-le : (a b : ℕ) → differ (a % 2) (b % 2) ≤ 1
differ-le a b = below (a % 2) (b % 2) (omega arith) (omega arith)
  where
    below : (x y : ℕ) → x < 2 → y < 2 → differ x y ≤ 1
    below zero y h g = omega arith
    below (suc zero) zero h g = omega arith
    below (suc zero) (suc zero) h g = omega arith
    below (suc zero) (suc (suc y)) h g = absurd (omega arith)
    below (suc (suc x)) y h g = absurd (omega arith)

xor_digit : (a b : ℕ) → bit_xor a b ≡ bit_xor (a / 2) (b / 2) * 2 + differ (a % 2) (b % 2)
xor_digit zero b = simp bit_xor-bitwise (low (b % 2) (omega arith))
  where
    low : (y : ℕ) → y < 2 → b ≡ b / 2 * 2 + b % 2
    low y h = omega arith
xor_digit (suc a) b = simp bit_xor-bitwise (omega (arith, lowest_digit (λ y. y) differ a b))

pub bit_xor-lt : (k a b : ℕ) → a < 2 ^ k → b < 2 ^ k → bit_xor a b < 2 ^ k
bit_xor-lt zero zero zero h g = omega arith
bit_xor-lt zero zero (suc b) h g = absurd (omega arith)
bit_xor-lt zero (suc a) b h g = absurd (omega arith)
bit_xor-lt (suc k) a b h g = omega (
  arith,
  xor_digit a b,
  pow-suc 2 k,
  differ-le a b,
  bit_xor-lt k (a / 2) (b / 2) (omega (arith, pow-suc 2 k)) (omega (arith, pow-suc 2 k)),
)

-- The tests of a single bit that the code writes.
pub bit_7-test : (a : ℕ) → not (bit_and a 0x80 == 0) ≡ (a / 128 % 2 == 1)
bit_7-test a = ground (arith, and_0x80 a)

pub bit_0-test : (a : ℕ) → not (bit_and a 0x01 == 0) ≡ (a % 2 == 1)
bit_0-test a = ground (arith, and_1 a)

or_swap : (n a b : ℕ) → a ≤ n → b ≤ n → bit_or a b ≡ bit_or b a
or_swap zero zero zero h g = refl
or_swap zero zero (suc b) h g = absurd (omega arith)
or_swap zero (suc a) b h g = absurd (omega arith)
or_swap (suc n) a b h g =
    omega (arith, or_digit a b, or_digit b a, or_swap n (a / 2) (b / 2) (omega arith) (omega arith))

pub bit_or_comm : (a b : ℕ) → bit_or a b ≡ bit_or b a
bit_or_comm a b = or_swap (a + b) a b (omega arith) (omega arith)

-- `r | (q << k)`
pub bit_or-shl_right : (k q r : ℕ) → r < 2 ^ k → bit_or r (shl q k) ≡ q * 2 ^ k + r
bit_or-shl_right k q r h = omega (arith, bit_or_comm r (shl q k), bit_or-shl k q r h)
