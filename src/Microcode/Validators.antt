-- ===== src/Microcode/Validators.antt =====
-- The validators that run before and after every optimizer: bus_validator.cpp,
-- control_conflict_validator.cpp, stage_validator.cpp, status_validator.cpp and
-- isa_coverage_validator.cpp of microcode/src/compiler.
pub mod Bus
pub mod Places
pub mod Coverage
use irata.Prelude.{
  Text, same_text, ℕ, suc, ◌+◌, ◌^◌, Bool, true, false, not, ◌&&◌, ◌||◌, Option, none, some, List,
  [], ◌∷◌, any, keep, length, null, ◌==◌, ltb, if◌then◌else◌, Result, ok, err, ◌>>=◌, ◌>>◌,
  throw_if,
}
use irata.Base.Phase
use irata.Base.Phase.{TickPhase}
use irata.Microcode.Ir.{
  Step, InstructionVariant, Instruction, InstructionSet, MicrocodeError, each, each_variant,
  multiple_writers, readers_without_writer, control_conflict, start_not_zero, not_monotonic,
  stage_gap, multiple_status_bits, overlapping_coverage, incomplete_coverage, unknown_opcode,
  duplicate_opcode, incomplete_isa,
}
use irata.Microcode.Encoder.{StatusBits, expand_partial}

abbrev Checked : Type 0
Checked = Result MicrocodeError (Unit {0})

-- The loop that two validators run over the preamble and every variant.
unfoldable pub each_step : (Step → Checked) → InstructionSet → Checked
unfolding each each_variant
each_step check set =
    each check set.fetch_preamble >> each_variant (λ v. each check v.steps) set.instructions

-- Bus validator. A control of the hardware model has a phase and, if it drives or reads a bus,
-- the bus of its value type.
pub data BusType : Type 0 where
  data_bus address_bus : BusType

pub data BusOperation : Type 0 where
  read_bus write_bus : BusOperation

abbrev pub operation_of : TickPhase → Option BusOperation
operation_of Phase.read = some read_bus
operation_of Phase.write = some write_bus
operation_of _ = none

abbrev pub same_bus : BusType → BusType → Bool
same_bus data_bus data_bus = true
same_bus address_bus address_bus = true
same_bus _ _ = false

module _ (bus_of : ℕ → Option BusType) (phase_of : ℕ → TickPhase) where
  -- `BuildBusMap`, as the lookup of a control.
  abbrev pub bus_info : ℕ → Option (BusType × BusOperation)
  bus_info c = elim (bus_of c) [
    | none ↦ none
    | some bus ↦ elim (operation_of (phase_of c)) [
      | none ↦ none
      | some operation ↦ some (bus, operation)
    ]
  ]

  abbrev pub writes_to : BusType → ℕ → Bool
  writes_to bus c = elim (bus_info c) [ some (b, write_bus) ↦ same_bus bus b | _ ↦ false ]

  abbrev pub reads_from : BusType → ℕ → Bool
  reads_from bus c = elim (bus_info c) [ some (b, read_bus) ↦ same_bus bus b | _ ↦ false ]

  abbrev pub writers : BusType → Step → List ℕ
  writers bus s = keep (writes_to bus) s.controls

  abbrev pub readers : BusType → Step → List ℕ
  readers bus s = keep (reads_from bus) s.controls

  -- `BusValidator::ValidateStep`
  unfoldable pub check_buses : Step → Checked
  check_buses s = do
    throw_if (ltb 1 (length (writers data_bus s))) multiple_writers
    throw_if (ltb 1 (length (writers address_bus s))) multiple_writers
    throw_if (not (null (readers data_bus s)) && null (writers data_bus s)) readers_without_writer
    throw_if (not (null (readers address_bus s)) && null (writers address_bus s))
        readers_without_writer

  unfoldable pub validate_buses : InstructionSet → Checked
  unfolding each_step check_buses
  validate_buses = each_step check_buses

-- Control conflicts. What stands before and behind the last dot of a path.
abbrev pub split_last_dot : Text → Option (Text × Text)
split_last_dot [] = none
split_last_dot (c ∷ cs) = elim (split_last_dot cs) [
  | some (before, behind) ↦ some (c ∷ before, behind)
  | none ↦ if c == 46 then some ([], cs) else none
]

unfoldable pub component_path : Text → Text
component_path path = elim (split_last_dot path) [ some (before, behind) ↦ before | none ↦ path ]

unfoldable pub operation_name : Text → Text
operation_name path = elim (split_last_dot path) [ some (before, behind) ↦ behind | none ↦ [] ]

-- The names "read", "write", "set", "clear", "increment" and "decrement".
abbrev pub read_name : Text
read_name = 114 ∷ 101 ∷ 97 ∷ 100 ∷ []

abbrev pub write_name : Text
write_name = 119 ∷ 114 ∷ 105 ∷ 116 ∷ 101 ∷ []

abbrev pub set_name : Text
set_name = 115 ∷ 101 ∷ 116 ∷ []

abbrev pub clear_name : Text
clear_name = 99 ∷ 108 ∷ 101 ∷ 97 ∷ 114 ∷ []

abbrev pub increment_name : Text
increment_name = 105 ∷ 110 ∷ 99 ∷ 114 ∷ 101 ∷ 109 ∷ 101 ∷ 110 ∷ 116 ∷ []

abbrev pub decrement_name : Text
decrement_name = 100 ∷ 101 ∷ 99 ∷ 114 ∷ 101 ∷ 109 ∷ 101 ∷ 110 ∷ 116 ∷ []

module _ (path_of : ℕ → Text) where
  -- `component_operations[component].contains(operation)`
  unfoldable pub operates : Step → Text → Text → Bool
  unfolding component_path operation_name
  operates s component operation =
      any
        (λ c.
          same_text (component_path (path_of c)) component
          && same_text (operation_name (path_of c)) operation)
        s.controls

  unfoldable pub check_component : Step → Text → Checked
  unfolding operates
  check_component s component = do
    throw_if (operates s component read_name && operates s component write_name) control_conflict
    throw_if (operates s component set_name && operates s component clear_name) control_conflict
    throw_if (operates s component increment_name && operates s component decrement_name)
        control_conflict

  -- Every component of the step, once per control of it.
  unfoldable pub check_conflicts : Step → Checked
  unfolding each check_component component_path
  check_conflicts s = each (λ c. check_component s (component_path (path_of c))) s.controls

  unfoldable pub validate_conflicts : InstructionSet → Checked
  unfolding each_step check_conflicts
  validate_conflicts = each_step check_conflicts
