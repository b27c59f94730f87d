-- ===== src/Sim/Alu.antt =====
-- The arithmetic unit: sim/src/alu/alu.cpp. The operand and result registers hold bytes; the
-- carry and the overflow flag are bits of the status byte.
pub mod Flags
pub mod Arithmetic
pub mod Shifts
pub mod Keeps
use irata.Prelude.{
  ℕ, ◌+◌, ◌-◌, ◌*◌, ◌/◌, ◌^◌, bit_and, bit_or, bit_xor, Bool, true, false, not, ◌&&◌, ◌==◌, ltb,
  leb, if◌then◌else◌, same, bit,
}
use irata.Bits.{u8, u16, shl, shr}
use irata.Sim.Status.{value, assign, carry, overflow}

-- The registers, and which of the four opcode controls are asserted in this tick.
pub record Alu : Type 0 where
  pub lhs : ℕ
  pub rhs : ℕ
  pub result : ℕ
  pub opcode_bit_0 : Bool
  pub opcode_bit_1 : Bool
  pub opcode_bit_2 : Bool
  pub opcode_bit_3 : Bool

unfoldable pub opcode : Alu → ℕ
opcode a =
    let o0 : ℕ = if a.opcode_bit_0 then u8 (bit_or 0 (shl 1 0)) else 0 in
    let o1 : ℕ = if a.opcode_bit_1 then u8 (bit_or o0 (shl 1 1)) else o0 in
    let o2 : ℕ = if a.opcode_bit_2 then u8 (bit_or o1 (shl 1 2)) else o1 in
    if a.opcode_bit_3 then u8 (bit_or o2 (shl 1 3)) else o2

-- A unit's step: the new registers and the new status byte.
abbrev pub Step : Type 0
Step = Alu × ℕ

unfoldable pub carry_in : ℕ → Bool
carry_in status = value status carry

unfoldable pub set_carry_out : ℕ → Bool → ℕ
set_carry_out status on = assign status carry on

unfoldable pub add : Alu → ℕ → Step
unfolding carry_in set_carry_out
add a status =
    let sum = u16 (a.lhs + a.rhs + (if carry_in status then 1 else 0)) in
    let lhs_sign = not (bit_and a.lhs 0x80 == 0) in
    let rhs_sign = not (bit_and a.rhs 0x80 == 0) in
    let result_sign = not (bit_and sum 0x80 == 0) in
    let overflowed = same lhs_sign rhs_sign && not (same lhs_sign result_sign) in
    (
      record a { result = u8 (bit_and sum 0xff) },
      assign (set_carry_out status (ltb 0xff sum)) overflow overflowed,
    )

unfoldable pub subtract : Alu → ℕ → Step
unfolding carry_in set_carry_out
subtract a status =
    let borrow : ℕ = if carry_in status then 0 else 1 in
    let subtrahend = u16 (a.rhs + borrow) in
    let difference = u16 (a.lhs + 2 ^ 16 - subtrahend) in
    (
      record a { result = u8 (bit_and difference 0xff) },
      set_carry_out status (leb subtrahend a.lhs),
    )

unfoldable pub increment : Alu → ℕ → Step
increment a status = (record a { result = u8 (bit_and (u16 (a.lhs + 1)) 0xff) }, status)

unfoldable pub decrement : Alu → ℕ → Step
decrement a status = (record a { result = u8 (bit_and (u16 (a.lhs + 2 ^ 16 - 1)) 0xff) }, status)

-- AND, OR and XOR store their value and clear both flags.
unfoldable pub logic : ℕ → Alu → ℕ → Step
unfolding set_carry_out
logic value a status =
    (record a { result = u8 value }, assign (set_carry_out status false) overflow false)

-- The shifts store their value, put the bit that falls out into the carry and clear the overflow.
unfoldable pub shifted : ℕ → Bool → Alu → ℕ → Step
unfolding set_carry_out
shifted value out a status =
    (record a { result = u8 value }, assign (set_carry_out status out) overflow false)

unfoldable pub asl : Alu → ℕ → Step
unfolding shifted
asl a status = let x = u8 a.lhs in shifted (shl x 1) (not (bit_and x 0x80 == 0)) a status

unfoldable pub lsr : Alu → ℕ → Step
unfolding shifted
lsr a status = let x = u8 a.lhs in shifted (shr x 1) (not (bit_and x 0x01 == 0)) a status

unfoldable pub rol : Alu → ℕ → Step
unfolding shifted carry_in
rol a status =
    let x = u8 a.lhs in
    shifted (bit_or (shl x 1) (if carry_in status then 1 else 0)) (not (bit_and x 0x80 == 0)) a
      status

unfoldable pub ror : Alu → ℕ → Step
unfolding shifted carry_in
ror a status =
    let x = u8 a.lhs in
    shifted (bit_or (shr x 1) (if carry_in status then 0x80 else 0)) (not (bit_and x 0x01 == 0)) a
      status

unfoldable pub bit_test : Alu → ℕ → Step
bit_test a status = (record a { result = u8 (bit_and a.lhs a.rhs) }, status)

-- The `switch` over the opcode.
unfoldable pub execute : ℕ → Alu → ℕ → Step
execute op a status =
    if op == 0x1
    then add a status
    else if op == 0x2
    then subtract a status
    else if op == 0x3
    then increment a status
    else if op == 0x4
    then logic (bit_and a.lhs a.rhs) a status
    else if op == 0x5
    then logic (bit_or a.lhs a.rhs) a status
    else if op == 0x6
    then logic (bit_xor a.lhs a.rhs) a status
    else if op == 0x7
    then asl a status
    else if op == 0x8
    then lsr a status
    else if op == 0x9
    then rol a status
    else if op == 0xa
    then ror a status
    else if op == 0xb
    then decrement a status
    else if op == 0xc
    then bit_test a status
    else (a, status)

-- `Alu::TickProcess`
unfoldable pub tick_process : Alu → ℕ → Step
unfolding execute
tick_process a status = let op = opcode a in if op == 0 then (a, status) else execute op a status
