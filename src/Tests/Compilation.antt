-- ===== src/Tests/Compilation.antt =====
-- The microcode compiler on a small instruction set.
use irata.Prelude.{
  ℕ, ◌≡◌, ◌≢◌, refl, true, false, Option, none, some, List, [], ◌∷◌, ◌↔◌, ok, ◌==◌, if◌then◌else◌,
}
use irata.Base.Phase.{TickPhase, process, write, read}
use irata.Microcode.Ir.{Step, Instruction, InstructionSet, on_variants}
use irata.Microcode.Sequence.{Sequencer}
use irata.Microcode.Sequence
use irata.Prelude.Int.{pos, negsuc}
use irata.Microcode.Fetch
use irata.Microcode.Fetch.Laws.{validate-transform}
use irata.Microcode.Optimizers.{run_empty, run_duplicate, run_merging, dedupe}
use irata.Microcode.Optimizers.Pipeline.{run_merging-transform}
use irata.Microcode.Validators.{BusType, data_bus, address_bus, check_buses}
use irata.Microcode.Validators.Places.{IsServed, check_buses-IsServed}
use irata.Microcode.Compiler.{
  Compiler, MicrocodeProgram, encode, compile, prepare, run_all_validators,
}
use irata.Microcode.Compiler.Checked.{compile-InstructionsEncoded}
use irata.Microcode.Compiler.Table.{InstructionsEncoded}

-- The controls: 1 increments the step counter, 2 resets it, 3 writes the data bus and 4 reads it.
abbrev sequencer : Sequencer
sequencer = record { increment_control = 1; reset_control = 2 }

abbrev phases : ℕ → TickPhase
phases c = if c == 3 then write else if c == 4 then read else process

abbrev buses : ℕ → Option BusType
buses c = if c == 3 then some data_bus else if c == 4 then some data_bus else none

-- One instruction, with a flag "c" set and clear.
abbrev preamble : List Step
preamble = record { stage = pos 0; controls = 3 ∷ 4 ∷ [] } ∷ []

abbrev moving : Step
moving = record { stage = pos 0; controls = 3 ∷ 4 ∷ [] }

abbrev waiting : Step
waiting = record { stage = pos 0; controls = [] }

abbrev instructions : List Instruction
instructions =
    record {
      opcode = 2;
      variants =
          record {
            status_conditions = ((99 ∷ []), true) ∷ [];
            steps = moving ∷ moving ∷ waiting ∷ [];
          }
          ∷ record { status_conditions = ((99 ∷ []), false) ∷ []; steps = moving ∷ [] }
          ∷ [];
    }
    ∷ []

abbrev instruction_set : InstructionSet
instruction_set = record { fetch_preamble = preamble; instructions = instructions }

not_before : pos 0 ≢ negsuc 0
not_before h = cc

fetch_example : Fetch.validate (Fetch.transform instruction_set) ≡ ok tt
fetch_example =
    validate-transform instruction_set (refl, tt)
      (((not_before, (not_before, (not_before, tt))), ((not_before, tt), tt)), tt)

merging_example :
    let made =
      run_merging phases
        (run_duplicate (run_empty (Sequence.transform sequencer instruction_set))) in
    (made.instructions
      ≡ on_variants dedupe (Sequence.transform sequencer instruction_set).instructions)
    × Sequence.validate sequencer made ≡ ok tt
merging_example = run_merging-transform phases sequencer instruction_set refl

bus_example : (check_buses buses phases moving ≡ ok tt) ↔ (
    IsServed buses phases data_bus moving.controls
    × IsServed buses phases address_bus moving.controls)
bus_example = check_buses-IsServed buses phases moving

abbrev compiler : Compiler
compiler = record {
  registered = 1 ∷ 2 ∷ 3 ∷ 4 ∷ [];
  status_bits = ((99 ∷ []), 0) ∷ [];
  sequencer = sequencer;
  bus_of = buses;
  phase_of = phases;
  path_of = λ c. c ∷ [];
  isa_opcodes = 2 ∷ [];
}

-- The table of the two variants before any pass.
abbrev program : MicrocodeProgram
program = record {
  table = (131072, 12) ∷ (131585, 0) ∷ (131329, 12) ∷ (131073, 12) ∷ [];
  controls = 1 ∷ 2 ∷ 3 ∷ 4 ∷ [];
  status_bits = ((99 ∷ []), 0) ∷ [];
}

encoded : encode compiler instruction_set ≡ ok program
unfolding encode
encoded = refl

-- The table behind all passes: the preamble stands in front, and the two equal steps are one.
abbrev compiled_program : MicrocodeProgram
compiled_program = record {
  table = (131328, 14) ∷ (131072, 13) ∷ (131585, 2) ∷ (131329, 13) ∷ (131073, 13) ∷ [];
  controls = 1 ∷ 2 ∷ 3 ∷ 4 ∷ [];
  status_bits = ((99 ∷ []), 0) ∷ [];
}

compiled : compile compiler instruction_set ≡ ok compiled_program
unfolding compile
compiled = refl

compile_example :
    (ready : InstructionSet) × (prepare compiler instruction_set ≡ ok ready)
    × (run_all_validators compiler ready ≡ ok tt)
    × InstructionsEncoded compiler compiled_program.table ready.instructions
compile_example = compile-InstructionsEncoded compiler instruction_set compiled_program compiled
