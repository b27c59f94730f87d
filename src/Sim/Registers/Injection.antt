-- ===== src/Sim/Registers/Injection.antt =====
-- The interrupt that the instruction register of sim/include/irata2/sim/instruction_register.h
-- injects.
use irata.Prelude.{
  ℕ, ◌≡◌, refl, ap, ap₂, ◌∙◌, Bool, true, false, not, ◌&&◌, Option, none, some, All, List, [], ◌∷◌,
  if◌then◌else◌,
}
use irata.Sim.Registers.{
  InstructionRegister, InstructionTick, tick_instruction, read_instruction, run_instruction, value,
  irq_opcode,
}

-- A tick in the middle of an instruction.
abbrev pub IsQuiet : InstructionTick → Type 0
IsQuiet t = (t.reset ≡ false) × (t.instruction_start ≡ false)

abbrev byte_read : Option ℕ → ℕ → ℕ
byte_read none byte = byte
byte_read (some b) byte = b

-- The byte that the last read of some ticks has taken.
abbrev pub last_read : List InstructionTick → ℕ → ℕ
last_read [] byte = byte
last_read (t ∷ ts) byte = last_read ts (byte_read t.read byte)

quiet :
    (t : InstructionTick) (ir : InstructionRegister)
    → IsQuiet t
    → (let next = tick_instruction t (read_instruction t ir) in
        (next.byte ≡ byte_read t.read ir.byte) × (next.inject_interrupt ≡ ir.inject_interrupt))
unfolding tick_instruction
quiet t ir (r, s) = by_read t.read refl
  where
    by_read :
        (o : Option ℕ)
        → t.read ≡ o
        → (let next = tick_instruction t (read_instruction t ir) in
            (next.byte ≡ byte_read t.read ir.byte) × (next.inject_interrupt ≡ ir.inject_interrupt))
    by_read none e = rw (e, r, s) (refl, refl)
    by_read (some b) e = rw (e, r, s) (refl, refl)

started :
    (t : InstructionTick) (ir : InstructionRegister)
    → t.reset ≡ false
    → t.instruction_start ≡ true
    → (let next = tick_instruction t (read_instruction t ir) in
        (next.byte ≡ byte_read t.read ir.byte)
        × (next.inject_interrupt ≡ (t.irq_line && not t.interrupt_disable)))
unfolding tick_instruction
started t ir r s = by_read t.read refl
  where
    by_read :
        (o : Option ℕ)
        → t.read ≡ o
        → (let next = tick_instruction t (read_instruction t ir) in
            (next.byte ≡ byte_read t.read ir.byte)
            × (next.inject_interrupt ≡ (t.irq_line && not t.interrupt_disable)))
    by_read none e = rw (e, r, s) (refl, refl)
    by_read (some b) e = rw (e, r, s) (refl, refl)

run-quiet :
    (ts : List InstructionTick) (ir : InstructionRegister)
    → All IsQuiet ts
    → ((run_instruction ts ir).byte ≡ last_read ts ir.byte)
      × ((run_instruction ts ir).inject_interrupt ≡ ir.inject_interrupt)
unfolding run_instruction
run-quiet [] ir h = (refl, refl)
run-quiet (t ∷ ts) ir h =
    let one = quiet t ir h.0 in
    let others = run-quiet ts (tick_instruction t (read_instruction t ir)) h.1 in
    (others.0 ∙ ap (last_read ts) one.0, others.1 ∙ one.1)

-- What the start of an instruction decides holds to its end: after a tick that starts an instruction
-- without a reset, and any ticks without a start or a reset, the register shows the interrupt's opcode
-- just when that tick saw the interrupt line with interrupts enabled, and otherwise the byte read last.
pub run_instruction-value :
    (t : InstructionTick) (ts : List InstructionTick) (ir : InstructionRegister)
    → t.reset ≡ false
    → t.instruction_start ≡ true
    → All IsQuiet ts
    → value (run_instruction (t ∷ ts) ir)
      ≡ (if t.irq_line && not t.interrupt_disable then irq_opcode else last_read (t ∷ ts) ir.byte)
unfolding run_instruction value
run_instruction-value t ts ir r s h =
    let (byte, inject) = run-quiet ts (tick_instruction t (read_instruction t ir)) h in
    let first = started t ir r s in
    ap₂ (λ (i : Bool) (b : ℕ). if i then irq_opcode else b) (inject ∙ first.1)
      (byte ∙ ap (last_read ts) first.0)
