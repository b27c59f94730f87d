-- ===== src/Tests/Machine.antt =====
-- The registers, the arithmetic unit and the keyboard at concrete values.
use irata.Prelude.{◌+◌, ◌*◌, ◌≡◌, refl, true, false, not, arith, bit, List, [], ◌∷◌}
use irata.Base.Byte.{IsByte}
use irata.Sim.Status.{value, carry, overflow, negative}
use irata.Sim.Alu
use irata.Sim.Alu.{Alu, opcode, tick_process}
use irata.Sim.Alu.Arithmetic.{fits_signed, add_lem, subtract_lem}
use irata.Sim.Alu.Shifts.{rotate_right, Shifts, shifts_lem}
use irata.Sim.Alu.Keeps.{tick_process_keeps}
use irata.Sim.Memory.AddressRegister
use irata.Sim.Memory.AddressRegister.{AddressRegister, tick_process-index}
use irata.Sim.Io.InputDevice
use irata.Sim.Io.InputDevice.{InputDevice, Op, inject, reads, writes, tick, new}
use irata.Sim.Io.InputDevice.Queue
use irata.Sim.Io.InputDevice.Refine.{run_refines}

-- 200 + 100 with the carry set, and 5 - 7 with the carry set.
abbrev adder : Alu
adder = record {
  lhs = 200;
  rhs = 100;
  result = 0;
  opcode_bit_0 = true;
  opcode_bit_1 = false;
  opcode_bit_2 = false;
  opcode_bit_3 = false;
}

add_example :
    let (a', s') = tick_process adder 1 in
    (256 * bit (value s' carry) + a'.result ≡ 200 + 100 + bit (value 1 carry))
    × (value s' overflow ≡ not (fits_signed 200 100 (bit (value 1 carry))))
unfolding opcode
add_example = add_lem adder 1 refl (omega arith) (omega arith) (omega arith)

abbrev subtractor : Alu
subtractor = record {
  lhs = 5;
  rhs = 7;
  result = 0;
  opcode_bit_0 = false;
  opcode_bit_1 = true;
  opcode_bit_2 = false;
  opcode_bit_3 = false;
}

subtract_example :
    let (a', s') = tick_process subtractor 1 in
    (a'.result + 7 + bit (not (value 1 carry)) ≡ 5 + 256 * bit (not (value s' carry)))
    × (value s' overflow ≡ value 1 overflow)
unfolding opcode
subtract_example = subtract_lem subtractor 1 refl (omega arith) (omega arith) (omega arith)

-- ROL (9) of 0x81 and ROR (10) of what it makes of it, from a clear carry.
abbrev rotator : Alu
rotator = record {
  lhs = 0x81;
  rhs = 0;
  result = 0;
  opcode_bit_0 = true;
  opcode_bit_1 = false;
  opcode_bit_2 = false;
  opcode_bit_3 = true;
}

abbrev rotator_back : Alu
rotator_back = record {
  lhs = 0x02;
  rhs = 0;
  result = 0;
  opcode_bit_0 = false;
  opcode_bit_1 = true;
  opcode_bit_2 = false;
  opcode_bit_3 = true;
}

rotate_example :
    let (a', s') = tick_process rotator_back 1 in
    Shifts rotate_right 0x02 (value 1 carry) a'.result (value s' carry)
unfolding opcode
rotate_example = shifts_lem rotate_right rotator_back 1 refl (omega arith) (omega arith)

rotated : 0x02 ≡ (tick_process rotator 0).0.result
unfolding opcode tick_process Alu.rol value
rotated = refl

keeps_example :
    let (a', s') = tick_process adder 0x83 in
    IsByte a'.result
    × IsByte s'
    × (a'.lhs ≡ 200)
    × (a'.rhs ≡ 100)
    × (value s' negative ≡ value 0x83 negative)
keeps_example =
    tick_process_keeps adder 0x83 negative (omega arith) (omega arith) (omega arith) (omega arith)
      (omega arith)

address_register_example :
    (AddressRegister.tick_process
      (record { interrupt_vector = false; stack_page = true; increment = true; add_offset = true })
      (record { value = 0x12ff; offset = 0x10 })).value
    ≡ 0x0210
address_register_example =
    tick_process-index
      (record { interrupt_vector = false; stack_page = true; increment = true; add_offset = true })
      (record { value = 0x12ff; offset = 0x10 }) (omega arith) (omega arith)

-- Two keys, the interrupt enabled, a tick, the count and the first key.
abbrev key_events : List Op
key_events = inject 65 ∷ inject 66 ∷ writes 1 1 ∷ tick ∷ reads 4 ∷ reads 2 ∷ []

keyboard_example :
    InputDevice.run key_events new
    ≡ Queue.run key_events (record { keys = []; held = 0; enabled = false })
keyboard_example = run_refines key_events
