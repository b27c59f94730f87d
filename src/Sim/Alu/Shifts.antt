-- ===== src/Sim/Alu/Shifts.antt =====
-- The shifts and the rotations through the carry.
use irata.Prelude.{
  ℕ, ◌+◌, ◌*◌, ◌/◌, ◌%◌, ◌<◌, ◌≡◌, ◌∙◌, refl, Bool, false, arith, ◌==◌, bit, if◌then◌else◌, ==→eq,
  bit_or,
}
use irata.Bits.{bit_7-test, bit_0-test, bit_or-shl, bit_or-zero, holds_below-at, u8, shr}
use irata.Base.Byte.{IsByte}
use irata.Sim.Status.{value, carry, overflow}
use irata.Sim.Alu.{Alu, opcode, carry_in, shifted, asl, lsr, rol, ror, tick_process, execute}
use irata.Sim.Alu.Flags.{value-both_flags, both_flags-IsByte}
use irata.Sim.Alu.Arithmetic.{tick_process-execute}

-- `(x >> 1) | 0x80` puts the carry on top.
or_top : (x : ℕ) → x < 256 → bit_or (shr x 1) 0x80 ≡ x / 2 + 128
or_top x h = ==→eq _ _ (holds_below-at 256 (λ y. bit_or (shr y 1) 0x80 == y / 2 + 128) x refl h)

module _ (a : Alu) (s : ℕ) (hl : IsByte a.lhs) (hs : IsByte s) where
  value-shifted :
      (r : ℕ) (out : Bool) (j : ℕ)
      → j < 8
      → value (shifted r out a s).1 j
        ≡ (if overflow == j then false else if carry == j then out else value s j)
  unfolding shifted
  value-shifted r out j hj = value-both_flags s hs out false j hj

  rol-result : (rol a s).0.result ≡ (2 * a.lhs + bit (carry_in s)) % 256
  unfolding rol
  rol-result = ground (arith, bit_or-shl 1 a.lhs (bit (carry_in s)))

  ror-result : (ror a s).0.result ≡ a.lhs / 2 + 128 * bit (carry_in s)
  unfolding ror
  ror-result = ground (arith, or_top a.lhs hl, bit_or-zero (a.lhs / 2))

  rol-carry : value (rol a s).1 carry ≡ (a.lhs / 128 % 2 == 1)
  unfolding rol
  rol-carry = value-both_flags s hs _ _ carry (omega arith) ∙ ground (arith, bit_7-test (u8 a.lhs))

  ror-carry : value (ror a s).1 carry ≡ (a.lhs % 2 == 1)
  unfolding ror
  ror-carry = value-both_flags s hs _ _ carry (omega arith) ∙ ground (arith, bit_0-test (u8 a.lhs))

  asl-result : (asl a s).0.result ≡ 2 * a.lhs % 256
  unfolding asl
  asl-result = ground arith

  lsr-result : (lsr a s).0.result ≡ a.lhs / 2
  unfolding lsr
  lsr-result = ground arith

  asl-carry : value (asl a s).1 carry ≡ (a.lhs / 128 % 2 == 1)
  unfolding asl
  asl-carry = value-both_flags s hs _ _ carry (omega arith) ∙ ground (arith, bit_7-test (u8 a.lhs))

  lsr-carry : value (lsr a s).1 carry ≡ (a.lhs % 2 == 1)
  unfolding lsr
  lsr-carry = value-both_flags s hs _ _ carry (omega arith) ∙ ground (arith, bit_0-test (u8 a.lhs))

rol-IsByte : (a : Alu) (s : ℕ) → IsByte s → IsByte (rol a s).1
unfolding rol
rol-IsByte a s hs = both_flags-IsByte s hs _ _

pub data Shift : Type 0 where
  left right rotate_left rotate_right : Shift

abbrev pub code : Shift → ℕ
code left = 0x7
code right = 0x8
code rotate_left = 0x9
code rotate_right = 0xa

-- Operand, carry before, result and carry after, of each shift.
abbrev pub Shifts : Shift → ℕ → Bool → ℕ → Bool → Type 0
Shifts left x c r c' = 256 * bit c' + r ≡ 2 * x
Shifts right x c r c' = 2 * r + bit c' ≡ x
Shifts rotate_left x c r c' = 256 * bit c' + r ≡ 2 * x + bit c
Shifts rotate_right x c r c' = 2 * r + bit c' ≡ x + 256 * bit c

-- The four shifts as arithmetic, over a byte operand and a status byte. ASL doubles into the carry
-- and the result; LSR halves, with the remainder in the carry; ROL doubles and adds the carry
-- before; ROR halves the operand with the carry before on top, with the remainder in the carry.
pub shifts_lem :
    (k : Shift) (a : Alu) (s : ℕ)
    → opcode a ≡ code k
    → IsByte a.lhs
    → IsByte s
    → let (a', s') = tick_process a s in Shifts k a.lhs (value s carry) a'.result (value s' carry)
unfolding execute carry_in
shifts_lem left a s op hl hs =
    rw (tick_process-execute a s _ op refl)
      (ground (arith, asl-result a s hl hs, asl-carry a s hl hs))
shifts_lem right a s op hl hs =
    rw (tick_process-execute a s _ op refl)
      (ground (arith, lsr-result a s hl hs, lsr-carry a s hl hs))
shifts_lem rotate_left a s op hl hs =
    rw (tick_process-execute a s _ op refl)
      (ground (arith, rol-result a s hl hs, rol-carry a s hl hs))
shifts_lem rotate_right a s op hl hs =
    rw (tick_process-execute a s _ op refl)
      (ground (arith, ror-result a s hl hs, ror-carry a s hl hs))

ror-rol_direct :
    (a b : Alu) (s : ℕ)
    → IsByte a.lhs
    → IsByte s
    → b.lhs ≡ (rol a s).0.result
    → ((ror b (rol a s).1).0.result ≡ a.lhs) × (value (ror b (rol a s).1).1 carry ≡ carry_in s)
unfolding carry_in
ror-rol_direct a b s hl hs e =
    let hb : IsByte b.lhs = omega (arith, rol-result a s hl hs) in
    let hs' : IsByte (rol a s).1 = rol-IsByte a s hs in
    (
      ground (arith, rol-result a s hl hs, rol-carry a s hl hs, ror-result b (rol a s).1 hb hs'),
      ground (arith, rol-result a s hl hs, ror-carry b (rol a s).1 hb hs'),
    )

-- ROL on a byte and then ROR on its result give back the byte and the carry flag.
pub ror-rol :
    (a b : Alu) (s : ℕ)
    → opcode a ≡ 0x9
    → opcode b ≡ 0xa
    → IsByte a.lhs
    → IsByte s
    → b.lhs ≡ (tick_process a s).0.result
    → let (b', s') = tick_process b (tick_process a s).1 in
      (b'.result ≡ a.lhs) × (value s' carry ≡ value s carry)
unfolding execute carry_in
ror-rol a b s oa ob hl hs e =
    let step : tick_process a s ≡ rol a s = tick_process-execute a s _ oa refl in
    rw (tick_process-execute b (tick_process a s).1 _ ob refl)
      (rw step (ror-rol_direct a b s hl hs (rw step at e)))
