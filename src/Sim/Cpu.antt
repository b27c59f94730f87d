-- ===== src/Sim/Cpu.antt =====
-- The processor's clock: Tick, TickProcess and RunUntilHalt of sim/src/cpu.cpp, and the trace buffer of
-- sim/include/irata2/sim/debug_trace.h. The components below the processor are an interface: their
-- state, their five phases and what the processor reads of them.
pub mod Run
pub mod Trace
pub mod Controls
use irata.Prelude.{
  ℕ, zero, suc, ◌+◌, ◌-◌, ◌%◌, ◌^◌, Bool, true, false, not, ◌&&◌, Option, none, some, List, [], ◌∷◌,
  ◌++◌, length, drop, ◌==◌, ltb, leb, if◌then◌else◌, Result, ok, err, ◌>>=◌,
}
use irata.Base.Phase
use irata.Base.Phase.{TickPhase}
use irata.Sim.Bus.{SimError}

pub record DebugTraceEntry : Type 0 where
  pub cycle : ℕ
  pub instruction_address : ℕ
  pub pc : ℕ
  pub ir : ℕ
  pub sc : ℕ
  pub a : ℕ
  pub x : ℕ
  pub status : ℕ

pub record DebugTraceBuffer : Type 0 where
  pub depth : ℕ
  pub entries : List DebugTraceEntry

unfoldable pub configure : ℕ → DebugTraceBuffer → DebugTraceBuffer
configure depth trace = record { depth = depth; entries = [] }

abbrev pub enabled : DebugTraceBuffer → Bool
enabled trace = ltb 0 trace.depth

-- `DebugTraceBuffer::Record`
unfoldable pub record_entry : DebugTraceEntry → DebugTraceBuffer → DebugTraceBuffer
record_entry entry trace =
    if not (enabled trace)
    then trace
    else (let kept =
          if leb trace.depth (length trace.entries) then drop 1 trace.entries else trace.entries in
        record trace { entries = kept ++ (entry ∷ []) })

-- The components below the processor, whose calls may throw.
pub record Components : Type 1 where
  pub State : Type 0
  pub tick_control : TickPhase → State → Result SimError State
  pub tick_write : TickPhase → State → Result SimError State
  pub tick_read : TickPhase → State → Result SimError State
  pub tick_process : TickPhase → State → Result SimError State
  pub tick_clear : TickPhase → State → Result SimError State
  pub halt_asserted : TickPhase → State → Result SimError Bool
  pub crash_asserted : TickPhase → State → Result SimError Bool
  pub start_asserted : TickPhase → State → Result SimError Bool
  pub trace_entry : ℕ → State → DebugTraceEntry
  pub ipc : State → ℕ
  pub pc : State → ℕ

-- A 64-bit counter.
abbrev pub u64 : ℕ → ℕ
u64 n = n % 2 ^ 64

module _ (m : Components) where
  pub record Cpu : Type 0 where
    pub components : m.State
    pub current_phase : TickPhase
    pub halted : Bool
    pub crashed : Bool
    pub ipc_valid : Bool
    pub cycle_count : ℕ
    pub trace : DebugTraceBuffer

module _ (m : Components) where
  -- `Cpu::TickProcess`
  unfoldable pub tick_process : Cpu m → Result SimError (Cpu m)
  unfolding record_entry
  tick_process c =
      (m.tick_process c.current_phase c.components >>= λ below.
      m.halt_asserted c.current_phase below >>= λ halt.
      m.crash_asserted c.current_phase below >>= λ crash.
      m.start_asserted c.current_phase below >>= λ start.
      let halted = if halt then true else c.halted in
      let stopped = record c {
        components = below;
        halted = if crash then true else halted;
        crashed = if crash then true else c.crashed;
      } in
      ok (
        if start
        then record stopped {
          ipc_valid = true;
          trace =
              if enabled c.trace
              then record_entry (m.trace_entry c.cycle_count below) c.trace
              else c.trace;
        }
        else stopped))

  -- The five phases of `Cpu::Tick`.
  unfoldable pub tick_phases : Cpu m → Result SimError (Cpu m)
  unfolding tick_process
  tick_phases c =
      (m.tick_control Phase.control c.components >>= λ controlled.
      m.tick_write Phase.write controlled >>= λ written.
      m.tick_read Phase.read written >>= λ was_read.
      tick_process (record c { components = was_read; current_phase = Phase.process })
      >>= λ processed. m.tick_clear Phase.clear processed.components >>= λ cleared.
          ok (record processed {
            components = cleared;
            current_phase = Phase.none;
            cycle_count = u64 (processed.cycle_count + 1);
          }))

  -- `Cpu::Tick`
  unfoldable pub tick : Cpu m → Result SimError (Cpu m)
  unfolding tick_phases
  tick c = if c.halted then ok c else tick_phases c

  -- `cycle_count_ - start_cycles`
  abbrev pub cycles_since : ℕ → Cpu m → ℕ
  cycles_since start c = u64 (c.cycle_count + 2 ^ 64 - start)

  -- The loop of `RunUntilHalt`; no result where the fuel is spent.
  unfoldable pub run_loop : ℕ → ℕ → ℕ → Cpu m → Option (Result SimError (Cpu m))
  unfolding tick
  run_loop zero start max_cycles c = none
  run_loop (suc fuel) start max_cycles c =
      elim (not c.halted && ltb (cycles_since start c) max_cycles) [
        | false ↦ some (ok c)
        | true ↦ elim (tick c) [
          | err thrown ↦ some (err thrown)
          | ok next ↦ run_loop fuel start max_cycles next
        ]
      ]

  -- `Cpu::instruction_address`
  unfoldable pub instruction_address : Cpu m → ℕ
  instruction_address c = if c.ipc_valid then m.ipc c.components else m.pc c.components

pub data HaltReason : Type 0 where
  running timeout halt crash : HaltReason

pub record RunResult : Type 0 where
  pub reason : HaltReason
  pub cycles : ℕ

module _ (m : Components) where
  -- The result that `RunUntilHalt` makes of the processor behind the loop.
  abbrev pub run_result : ℕ → Cpu m → RunResult
  run_result start c = record {
    reason = if c.halted then (if c.crashed then crash else halt) else timeout;
    cycles = cycles_since m start c;
  }

  -- `Cpu::RunUntilHalt` with a bound, without the captured state.
  unfoldable pub run_until_halt : ℕ → ℕ → Cpu m → Option (Result SimError (Cpu m × RunResult))
  unfolding run_loop
  run_until_halt fuel max_cycles c = elim (run_loop m fuel c.cycle_count max_cycles c) [
    | none ↦ none
    | some (err thrown) ↦ some (err thrown)
    | some (ok stopped) ↦ some (ok (stopped, run_result c.cycle_count stopped))
  ]
