-- ===== src/Tests/Control.antt =====
-- The controller and the bus with a program of four controls and one flag.
use irata.Prelude.{
  Text, ℕ, ◌+◌, ◌-◌, ◌^◌, ◌≤◌, Result, length, drop, ◌≡◌, refl, false, Option, none, some, List, [],
  ◌∷◌, ok, arith, any, ◌&&◌, map, ◌==◌, if◌then◌else◌, true,
}
use irata.Base.Phase
use irata.Base.Phase.{TickPhase, control, process, write, read}
use irata.Prelude.Int.{pos}
use irata.Microcode.Ir.{Step, InstructionSet}
use irata.Microcode.Validators.{BusType, data_bus, check_buses, writes_to}
use irata.Microcode.Compiler.{Compiler, MicrocodeProgram, compile, prepare}
use irata.Sim.Status.{value}
use irata.Sim.Controller.{
  InstructionMemory, status_map, encode_statuses, decode_statuses, initialize_controls,
  initialize_statuses, new_instruction_memory,
}
use irata.Sim.Controller.Flags.{
  encode_statuses-value, decode_statuses-encode_statuses, default_references,
}
use irata.Sim.Controller.Program.{InstructionsLookUp, new_instruction_memory-InstructionsLookUp}
use irata.Sim.Io.Vgc.{VectorGraphicsCoprocessor, draw_line}
use irata.Sim.Io.Vgc.Rounds.{dist}
use irata.Sim.Io.Vgc.Bresenham.{LinePath, draw_points, draw_line-LinePath}
use irata.Sim.Cpu.{Components, Cpu, DebugTraceEntry, RunResult, configure, run_until_halt}
use irata.Sim.Cpu.Run.{Outcome, run_until_halt-Outcome}
use irata.Sim.Cpu.Trace.{record_all, record_all-last}
use irata.Sim.Bus.{
  SimError, Controls, Bus, Register, new_bus, assert_all, tick_write_all, tick_read_all,
}
use irata.Sim.Bus.Step.{Transferred, tick_read_all-check_buses}

-- The controls: 1 increments the step counter, 2 resets it, 3 writes the data bus and 4 reads it.
abbrev phases : ℕ → TickPhase
phases c =
    if c == 3
    then write
    else if c == 4
    then read
    else if c == 5
    then write
    else if c == 6
    then read
    else process

abbrev buses : ℕ → Option BusType
buses c =
    if c == 3
    then some data_bus
    else if c == 4
    then some data_bus
    else if c == 5
    then some data_bus
    else if c == 6
    then some data_bus
    else none

abbrev moving : Step
moving = record { stage = pos 0; controls = 3 ∷ 4 ∷ [] }

abbrev carry_name : Text
carry_name = 99 ∷ 97 ∷ 114 ∷ 114 ∷ 121 ∷ []

abbrev instruction_set : InstructionSet
instruction_set = record {
  fetch_preamble = moving ∷ [];
  instructions =
      record {
        opcode = 2;
        variants =
            record { status_conditions = (carry_name, true) ∷ []; steps = moving ∷ [] }
            ∷ record { status_conditions = (carry_name, false) ∷ []; steps = [] }
            ∷ [];
      }
      ∷ [];
}

abbrev compiler : Compiler
compiler = record {
  registered = 1 ∷ 2 ∷ 3 ∷ 4 ∷ [];
  status_bits = (carry_name, 0) ∷ [];
  sequencer = record { increment_control = 1; reset_control = 2 };
  bus_of = buses;
  phase_of = phases;
  path_of = λ c. c ∷ [];
  isa_opcodes = 2 ∷ [];
}

abbrev program : MicrocodeProgram
program = record {
  table = (131072, 14) ∷ (131329, 14) ∷ (131073, 13) ∷ [];
  controls = 1 ∷ 2 ∷ 3 ∷ 4 ∷ [];
  status_bits = (carry_name, 0) ∷ [];
}

compiled : compile compiler instruction_set ≡ ok program
unfolding compile
compiled = refl

loaded_example :
    (m : InstructionMemory) × (new_instruction_memory
        (λ c. c ∷ [])
        (λ c. c ∷ [])
        program
        (1 ∷ 2 ∷ 3 ∷ 4 ∷ [])
      ≡ ok m)
    × (ready : InstructionSet) × (prepare compiler instruction_set ≡ ok ready)
    × InstructionsLookUp (λ c. c ∷ []) (λ c. c ∷ []) compiler m ready.instructions
unfolding initialize_controls initialize_statuses
loaded_example =
    new_instruction_memory-InstructionsLookUp (λ c. c ∷ []) (λ c. c ∷ []) compiler instruction_set
      program (1 ∷ 2 ∷ 3 ∷ 4 ∷ []) (1 ∷ 2 ∷ 3 ∷ 4 ∷ []) (0 ∷ [])
      ((refl, (refl, (refl, tt))), ((refl, (refl, tt)), ((refl, tt), (tt, tt)))) compiled refl refl

flags_example :
    value (encode_statuses 0x81 (7 ∷ 6 ∷ 5 ∷ 4 ∷ 3 ∷ 2 ∷ 1 ∷ 0 ∷ []) 0) 7
    ≡ (any (λ b. b == 7) (7 ∷ 6 ∷ 5 ∷ 4 ∷ 3 ∷ 2 ∷ 1 ∷ 0 ∷ []) && value 0x81 7)
unfolding initialize_statuses
flags_example = encode_statuses-value status_map (7 ∷ 6 ∷ 5 ∷ 4 ∷ 3 ∷ 2 ∷ 1 ∷ 0 ∷ []) 0x81 7 refl

decoded_example :
    decode_statuses 0 default_references (encode_statuses 0x81 default_references 0)
    ≡ map (value 0x81) (0 ∷ 1 ∷ 2 ∷ 3 ∷ 4 ∷ 5 ∷ 6 ∷ 7 ∷ [])
decoded_example = decode_statuses-encode_statuses 0x81 (omega arith)

abbrev registers : List Register
registers =
    record { path = 97 ∷ []; write = 3; read = 6; value = 5 }
    ∷ record { path = 98 ∷ []; write = 5; read = 4; value = 9 }
    ∷ []

only_writers :
    (c : ℕ)
    → writes_to buses phases data_bus c ≡ true
    → any (λ (r : Register). r.write == c) registers ≡ true
only_writers c h = ground (arith, h)

bus_step_example :
    (controls : Controls) × (assert_all control moving.controls (λ c. false) ≡ ok controls)
    × (after_write : Bus) × (tick_write_all write controls registers new_bus ≡ ok after_write)
    × (after : List Register) × (tick_read_all read controls after_write registers ≡ ok after)
    × Transferred buses phases data_bus moving registers controls after
unfolding check_buses
bus_step_example =
    tick_read_all-check_buses buses phases data_bus moving registers refl ((refl, tt), (tt, tt))
      ((refl, refl), ((refl, refl), tt)) only_writers

line_example :
    (points : List (ℕ × ℕ)) × (draw_line 2 7 5 6 3 (λ cell. 0)
      ≡ some (draw_points 3 points (λ cell. 0)))
    × LinePath 5 6 2 7 points
    × (length points ≤ dist 2 5 + dist 7 6 + 1)
line_example =
    draw_line-LinePath 2 7 5 6 3 (λ cell. 0) (omega arith) (omega arith) (omega arith) (omega arith)

abbrev coprocessor : VectorGraphicsCoprocessor
coprocessor = record {
  frame = λ cell. 0;
  cmd = 3;
  x0 = 2;
  y0 = 7;
  x1 = 5;
  y1 = 6;
  color = 3;
  irq_enabled = false;
}

abbrev entry : ℕ → DebugTraceEntry
entry n = record {
  cycle = n;
  instruction_address = 0;
  pc = 0;
  ir = 0;
  sc = 0;
  a = 0;
  x = 0;
  status = 0;
}

trace_example :
    (record_all
      (configure 2 (record { depth = 0; entries = [] }))
      (entry 1 ∷ entry 2 ∷ entry 3 ∷ [])).entries
    ≡ drop (length (entry 1 ∷ entry 2 ∷ entry 3 ∷ []) - 2) (entry 1 ∷ entry 2 ∷ entry 3 ∷ [])
trace_example =
    record_all-last (record { depth = 0; entries = [] }) 2 (entry 1 ∷ entry 2 ∷ entry 3 ∷ [])
      (omega arith)

-- Components that count their ticks and ask for a halt in the third.
abbrev counting : Components
counting = record {
  State = ℕ;
  tick_control = λ phase n. ok (n + 1);
  tick_write = λ phase n. ok n;
  tick_read = λ phase n. ok n;
  tick_process = λ phase n. ok n;
  tick_clear = λ phase n. ok n;
  halt_asserted = λ phase n. ok (n == 3);
  crash_asserted = λ phase n. ok false;
  start_asserted = λ phase n. ok true;
  trace_entry = λ cycle n. entry cycle;
  ipc = λ n. n;
  pc = λ n. n;
}

abbrev cpu : Cpu counting
cpu = record {
  components = 0;
  current_phase = Phase.none;
  halted = false;
  crashed = false;
  ipc_valid = false;
  cycle_count = 2 ^ 64 - 1;
  trace = record { depth = 1; entries = [] };
}

run_example :
    (r : Result SimError (Cpu counting × RunResult)) × (run_until_halt counting 6 5 cpu ≡ some r)
    × Outcome counting 5 cpu r
run_example = run_until_halt-Outcome counting 6 5 cpu (omega arith) (omega arith) (omega arith)
