-- ===== src/Sim/Alu/Arithmetic.antt =====
-- Addition, subtraction, increment and decrement as arithmetic of bytes and of the carry.
use irata.Prelude.{
  ℕ, ◌+◌, ◌-◌, ◌*◌, ◌%◌, ◌^◌, ◌<◌, ◌≡◌, ◌∙◌, refl, Bool, false, not, ◌&&◌, arith, ◌==◌, ltb, leb,
  same, bit, if◌then◌else◌, bit_and,
}
use irata.Bits.{and_0xff, bit_7-test, u16}
use irata.Base.Byte.{IsByte}
use irata.Sim.Status.{value, carry, overflow}
use irata.Sim.Alu.Flags.{value-both_flags, value-set_carry_out}
use irata.Sim.Alu.{Alu, opcode, carry_in, add, subtract, execute, tick_process}

-- The number that a byte stands for in two's complement, plus 128.
abbrev pub biased : ℕ → ℕ
biased b = (b + 128) % 256

-- Whether the signed sum of two bytes and the carry lies from -128 to 127.
abbrev pub fits_signed : ℕ → ℕ → ℕ → Bool
fits_signed x y c = leb 128 (biased x + biased y + c) && leb (biased x + biased y + c) 383

-- The three sign bits of the source's overflow test, on the sum before it is cut.
overflow_test :
    (x y c : ℕ)
    → IsByte x
    → IsByte y
    → c < 2
    → (let r = u16 (x + y + c) in
        same (not (bit_and x 0x80 == 0)) (not (bit_and y 0x80 == 0))
        && not (same (not (bit_and x 0x80 == 0)) (not (bit_and r 0x80 == 0))))
      ≡ not (fits_signed x y c)
overflow_test x y c hx hy hc =
    rw (bit_7-test x, bit_7-test y, bit_7-test (u16 (x + y + c))) (ground arith)

module _ (a : Alu) (s : ℕ) (hl : IsByte a.lhs) (hr : IsByte a.rhs) (hs : IsByte s) where
  abbrev carried : ℕ
  carried = bit (carry_in s)

  add-result : (add a s).0.result ≡ (a.lhs + a.rhs + carried) % 256
  unfolding add
  add-result = ground (arith, and_0xff (u16 (a.lhs + a.rhs + (if carry_in s then 1 else 0))))

  add-carry : value (add a s).1 carry ≡ ltb 255 (a.lhs + a.rhs + carried)
  unfolding add
  add-carry = value-both_flags s hs _ _ carry (omega arith) ∙ ground arith

  add-overflow : value (add a s).1 overflow ≡ not (fits_signed a.lhs a.rhs carried)
  unfolding add
  add-overflow =
      value-both_flags s hs _ _ overflow (omega arith)
      ∙ ground (arith, overflow_test a.lhs a.rhs carried hl hr)

  subtract-result : (subtract a s).0.result ≡ (a.lhs + 255 + carried - a.rhs) % 256
  unfolding subtract
  subtract-result =
      ground (arith, and_0xff (u16 (a.lhs + 2 ^ 16 - u16 (a.rhs + (if carry_in s then 0 else 1)))))

  subtract-carry : value (subtract a s).1 carry ≡ leb (a.rhs + 1) (a.lhs + carried)
  unfolding subtract
  subtract-carry = value-set_carry_out s hs _ carry (omega arith) ∙ ground arith

  subtract-overflow : value (subtract a s).1 overflow ≡ value s overflow
  unfolding subtract
  subtract-overflow = value-set_carry_out s hs _ overflow (omega arith)

-- The step of an asserted opcode, once the opcode is known.
pub tick_process-execute :
    (a : Alu) (s k : ℕ) → opcode a ≡ k → (k == 0) ≡ false → tick_process a s ≡ execute k a s
unfolding tick_process
tick_process-execute a s k h e = rw (h, e)

tick_process-add : (a : Alu) (s : ℕ) → opcode a ≡ 0x1 → tick_process a s ≡ add a s
unfolding execute
tick_process-add a s h = tick_process-execute a s _ h refl

tick_process-subtract : (a : Alu) (s : ℕ) → opcode a ≡ 0x2 → tick_process a s ≡ subtract a s
unfolding execute
tick_process-subtract a s h = tick_process-execute a s _ h refl

-- With the opcode ADD, over byte operands and a status byte, the carry flag and the result together
-- are the sum of the operands and the carry before, and the overflow flag is set exactly when the
-- signed sum with that carry does not lie from -128 to 127.
pub add_lem :
    (a : Alu) (s : ℕ)
    → opcode a ≡ 0x1
    → IsByte a.lhs
    → IsByte a.rhs
    → IsByte s
    → let (a', s') = tick_process a s in
      let c = bit (value s carry) in
      (256 * bit (value s' carry) + a'.result ≡ a.lhs + a.rhs + c)
      × (value s' overflow ≡ not (fits_signed a.lhs a.rhs c))
unfolding carry_in
add_lem a s op hl hr hs =
    rw (tick_process-add a s op)
      (ground (arith, add-result a s hl hr hs, add-carry a s hl hr hs), add-overflow a s hl hr hs)

-- With the opcode SUB, over byte operands and a status byte, the result is the left operand less the
-- right one and less one more if the carry was clear, modulo 256, and the carry is then clear
-- exactly when that difference was negative; the overflow flag keeps its value.
pub subtract_lem :
    (a : Alu) (s : ℕ)
    → opcode a ≡ 0x2
    → IsByte a.lhs
    → IsByte a.rhs
    → IsByte s
    → let (a', s') = tick_process a s in
      (a'.result + a.rhs + bit (not (value s carry)) ≡ a.lhs + 256 * bit (not (value s' carry)))
      × (value s' overflow ≡ value s overflow)
unfolding carry_in
subtract_lem a s op hl hr hs = rw (tick_process-subtract a s op) (
  ground (arith, subtract-result a s hl hr hs, subtract-carry a s hl hr hs),
  subtract-overflow a s hl hr hs,
)
