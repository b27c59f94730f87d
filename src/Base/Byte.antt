-- ===== src/Base/Byte.antt =====
-- The class `Byte` of base/include/irata2/base/types.h. A byte is a number below 2 ^ 8; each operator
-- computes in `int` and the constructor cuts the result to `uint8_t`.
use irata.Prelude.{ℕ, ◌+◌, ◌-◌, ◌^◌, ◌<◌, ◌≡◌, arith}
use irata.Bits.{u8, shl, shr}

abbrev pub IsByte : ℕ → Type 0
IsByte b = b < 256

unfoldable pub add : ℕ → ℕ → ℕ
add a b = u8 (a + b)

-- `-` on ℕ stops at 0, so the modulus is added first.
unfoldable pub sub : ℕ → ℕ → ℕ
sub a b = u8 (a + 2 ^ 8 - b)

unfoldable pub complement : ℕ → ℕ
complement a = u8 (2 ^ 8 - 1 - a)

unfoldable pub shift_left : ℕ → ℕ → ℕ
shift_left a k = u8 (shl a k)

unfoldable pub shift_right : ℕ → ℕ → ℕ
shift_right a k = u8 (shr a k)

-- The complement of a byte is its negation less one.
pub add-complement : (a : ℕ) → IsByte a → add (complement a) 1 ≡ sub 0 a
unfolding add sub complement
add-complement a h = omega arith
