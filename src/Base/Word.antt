-- ===== src/Base/Word.antt =====
-- The class `Word` of base/include/irata2/base/types.h: a number below 2 ^ 16, made of two bytes.
use irata.Prelude.{ℕ, ◌+◌, ◌-◌, ◌*◌, ◌/◌, ◌%◌, ◌^◌, ◌<◌, bit_and, bit_or, ◌≡◌, arith}
use irata.Bits.{u8, u16, shl, shr, bit_or-shl, and_0xff}
use irata.Base.Byte.{IsByte}

abbrev pub IsWord : ℕ → Type 0
IsWord w = w < 65536

-- `Word(Byte high, Byte low)`
unfoldable pub of_bytes : ℕ → ℕ → ℕ
of_bytes high low = u16 (bit_or (shl (u16 high) 8) low)

unfoldable pub high : ℕ → ℕ
high w = u8 (shr w 8)

unfoldable pub low : ℕ → ℕ
low w = u8 (bit_and w 0xff)

unfoldable pub add : ℕ → ℕ → ℕ
add a b = u16 (a + b)

unfoldable pub sub : ℕ → ℕ → ℕ
sub a b = u16 (a + 2 ^ 16 - b)

pub of_bytes-value : (h l : ℕ) → IsByte h → IsByte l → of_bytes h l ≡ h * 256 + l
unfolding of_bytes
of_bytes-value h l p q = omega (arith, bit_or-shl 8 (u16 h) l q)

pub high-value : (w : ℕ) → IsWord w → high w ≡ w / 256
unfolding high
high-value w h = omega arith

pub low-value : (w : ℕ) → low w ≡ w % 256
unfolding low
low-value w = omega (arith, and_0xff w)

-- Joining two bytes and splitting gives them back.
pub high-low-of_bytes :
    (h l : ℕ) → IsByte h → IsByte l → (high (of_bytes h l) ≡ h) × (low (of_bytes h l) ≡ l)
high-low-of_bytes h l p q = (
  omega (
    arith,
    of_bytes-value h l p q,
    high-value (of_bytes h l) (omega (arith, of_bytes-value h l p q)),
  ),
  omega (arith, of_bytes-value h l p q, low-value (of_bytes h l)),
)

pub of_bytes-IsWord : (h l : ℕ) → IsWord (of_bytes h l)
unfolding of_bytes
of_bytes-IsWord h l = omega arith

pub high-IsByte : (w : ℕ) → IsByte (high w)
unfolding high
high-IsByte w = omega arith

pub low-IsByte : (w : ℕ) → IsByte (low w)
unfolding low
low-IsByte w = omega arith
