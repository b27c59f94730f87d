-- ===== src/Tests/Registers.antt =====
-- The registers without a bus, and the index of the controls, at concrete inputs.
use irata.Prelude.{
  codes, ℕ, ◌≡◌, refl, true, false, none, some, List, [], ◌∷◌, ok, get_elem?, arith,
}
use irata.Base.Word
use irata.Base.Word.{IsWord}
use irata.Sim.Registers.{
  InstructionTick, run_instruction, value, tick_pointers, tick_pointers-advance, tick_word_counter,
}
use irata.Sim.Registers.Injection.{run_instruction-value}
use irata.Sim.Registers.Words.{tick_word_counter-carry}
use irata.Sim.Cpu.Controls.{
  Component, ControlIndex, build_control_index, validate_against_hdl, resolve_control,
}
use irata.Sim.Cpu.Controls.Index.{resolve_control-validated}

-- The program counter is incremented, and its high byte reset, in the tick that latches it: the
-- instruction pointer gets 0x0001.
pointers_example :
    (tick_pointers
      (record { reset = false; increment = true; add_signed_offset = false })
      (record { low = false; high = true; signed_offset = false })
      true
      false
      (record { value = 0x8000; signed_offset = 0 })
      0x7000).1
    ≡ 0x0001
pointers_example =
    tick_pointers-advance (record { reset = false; increment = true; add_signed_offset = false })
      (record { low = false; high = true; signed_offset = false }) true false
      (record { value = 0x8000; signed_offset = 0 }) 0x7000 (omega arith) (omega arith)

carry_example :
    IsWord (tick_word_counter false true 0x12ff)
    × (Word.low (tick_word_counter false true 0x12ff) ≡ 0)
    × (Word.high (tick_word_counter false true 0x12ff) ≡ 0x13)
unfolding Word.low Word.high
carry_example = tick_word_counter-carry false true 0x12ff (omega arith)

abbrev start : InstructionTick
start = record {
  read = none;
  reset = false;
  irq_line = true;
  instruction_start = true;
  interrupt_disable = false;
}

abbrev fetch : InstructionTick
fetch = record {
  read = some 0xa9;
  reset = false;
  irq_line = false;
  instruction_start = false;
  interrupt_disable = false;
}

-- The interrupt that the start has seen stays in place of the opcode that is fetched.
injection_example :
    value (run_instruction (start ∷ fetch ∷ []) (record { byte = 0x02; inject_interrupt = false }))
    ≡ 0
injection_example =
    run_instruction-value start (fetch ∷ []) (record { byte = 0x02; inject_interrupt = false }) refl
      refl ((refl, refl), tt)

abbrev components : List Component
components =
    record { path = codes "halt"; control = some 10 }
    ∷ record { path = codes "a"; control = none }
    ∷ record { path = codes "a.read"; control = some 12 }
    ∷ []

abbrev index : ControlIndex
index = record {
  controls_by_path = (codes "halt", 10) ∷ (codes "a.read", 12) ∷ [];
  control_paths = codes "halt" ∷ codes "a.read" ∷ [];
  control_order = 10 ∷ 12 ∷ [];
}

built : build_control_index components ≡ ok index
unfolding build_control_index
built = refl

validated : validate_against_hdl (codes "halt" ∷ codes "a.read" ∷ []) index ≡ ok tt
unfolding validate_against_hdl
validated = refl

control_example :
    (control : ℕ) × (resolve_control index (codes "a.read") ≡ ok control)
    × (get_elem? index.control_order 1 ≡ some control)
control_example =
    resolve_control-validated components (codes "halt" ∷ codes "a.read" ∷ []) index 1
      (codes "a.read") built validated refl refl
