-- ===== src/Microcode/Compiler.antt =====
-- The compiler: microcode/src/compiler/compiler.cpp. What the hardware model and the instruction
-- set say of a control and of the opcodes is the compiler's configuration.
pub mod Table
pub mod Checked
use irata.Prelude.{
  Text, same_text, ℕ, zero, suc, ◌+◌, ◌^◌, Bool, true, false, not, Option, none, some, List, [],
  ◌∷◌, ◌==◌, ltb, if◌then◌else◌, Result, ok, err, ◌>>=◌, ◌>>◌, throw_if,
}
use irata.Bits.{u8}
use irata.Base.Phase.{TickPhase}
use irata.Microcode.Ir.{
  Step, InstructionVariant, Instruction, InstructionSet, MicrocodeError, opcode_out_of_range,
  step_out_of_range, table_conflict,
}
use irata.Microcode.Encoder.{StatusBits, encode_key, make_key, encode_controls, expand_partial}
use irata.Microcode.Validators.{BusType, validate_buses, validate_conflicts}
use irata.Microcode.Validators.Coverage.{validate_stages, validate_statuses, validate_opcodes}
use irata.Microcode.Sequence.{Sequencer}
use irata.Microcode.Sequence
use irata.Microcode.Fetch
use irata.Microcode.Optimizers.{run_empty, run_duplicate, run_merging}

pub record Compiler : Type 0 where
  pub registered : List ℕ
  pub status_bits : StatusBits
  pub sequencer : Sequencer
  pub bus_of : ℕ → Option BusType
  pub phase_of : ℕ → TickPhase
  pub path_of : ℕ → Text
  pub isa_opcodes : List ℕ

-- `RunAllValidators`
unfoldable pub run_all_validators : Compiler → InstructionSet → Result MicrocodeError (Unit {0})
unfolding validate_buses validate_conflicts validate_stages validate_statuses validate_opcodes
    Sequence.validate
run_all_validators c set = do
  validate_buses c.bus_of c.phase_of set
  validate_conflicts c.path_of set
  validate_stages set
  validate_statuses c.status_bits set
  validate_opcodes c.isa_opcodes set
  Sequence.validate c.sequencer set

-- `MicrocodeTable`, an unordered map, as an association list without repeated keys.
abbrev pub Table : Type 0
Table = List (ℕ × ℕ)

abbrev pub find_word : ℕ → Table → Option ℕ
find_word key [] = none
find_word key (e ∷ es) = if e.0 == key then some e.1 else find_word key es

-- `emplace`, and the conflict when the key has another word.
unfoldable pub emplace : ℕ → ℕ → Table → Result MicrocodeError Table
emplace key word table = elim (find_word key table) [
  | none ↦ ok ((key, word) ∷ table)
  | some there ↦ throw_if (not (there == word)) table_conflict >> ok table
]

-- The loops of `Encode`, the innermost first: the statuses, the steps, the variants and the
-- instructions.
unfoldable pub encode_statuses : ℕ → ℕ → ℕ → List ℕ → Table → Result MicrocodeError Table
unfolding emplace encode_key make_key
encode_statuses opcode step word [] table = ok table
encode_statuses opcode step word (status ∷ rest) table =
    (emplace (encode_key (make_key opcode (u8 step) status)) word table >>= λ now.
    encode_statuses opcode step word rest now)

unfoldable pub encode_steps :
    Compiler → ℕ → List ℕ → ℕ → List Step → Table → Result MicrocodeError Table
unfolding encode_statuses encode_controls
encode_steps c opcode statuses step [] table = ok table
encode_steps c opcode statuses step (s ∷ rest) table =
    throw_if (ltb 0xFF step) step_out_of_range
    >> (encode_controls c.registered s.controls >>= λ word.
        encode_statuses opcode step word statuses table >>= λ now.
        encode_steps c opcode statuses (suc step) rest now)

unfoldable pub encode_variants :
    Compiler → ℕ → List InstructionVariant → Table → Result MicrocodeError Table
unfolding encode_steps expand_partial
encode_variants c opcode [] table = ok table
encode_variants c opcode (v ∷ rest) table =
    (expand_partial c.status_bits v.status_conditions >>= λ statuses.
    encode_steps c opcode statuses 0 v.steps table >>= λ now. encode_variants c opcode rest now)

unfoldable pub encode_instructions :
    Compiler → List Instruction → Table → Result MicrocodeError Table
unfolding encode_variants
encode_instructions c [] table = ok table
encode_instructions c (i ∷ rest) table =
    throw_if (ltb 0xFF i.opcode) opcode_out_of_range
    >> (encode_variants c i.opcode i.variants table >>= λ now. encode_instructions c rest now)

-- `MicrocodeProgram`: the table, and what the encoders pass on.
pub record MicrocodeProgram : Type 0 where
  pub table : Table
  pub controls : List ℕ
  pub status_bits : StatusBits

-- `Compiler::Encode`
unfoldable pub encode : Compiler → InstructionSet → Result MicrocodeError MicrocodeProgram
unfolding encode_instructions
encode c set =
    (encode_instructions c set.instructions [] >>= λ made.
    ok (record { table = made; controls = c.registered; status_bits = c.status_bits }))

-- An optimization pass and the validators behind it.
unfoldable pub validated : Compiler → InstructionSet → Result MicrocodeError InstructionSet
unfolding run_all_validators
validated c set = run_all_validators c set >> ok set

-- `Compiler::Compile`, up to the encoding.
unfoldable pub prepare : Compiler → InstructionSet → Result MicrocodeError InstructionSet
unfolding validated Fetch.transform Fetch.validate Sequence.transform run_empty run_duplicate
    run_merging
prepare c set =
    let fetched = Fetch.transform set in
    Fetch.validate fetched
    >> (validated c (Sequence.transform c.sequencer fetched) >>= λ checked.
        validated c (run_empty checked) >>= λ filled.
        validated c (run_duplicate filled) >>= λ deduplicated.
        validated c (run_merging c.phase_of deduplicated))

unfoldable pub compile : Compiler → InstructionSet → Result MicrocodeError MicrocodeProgram
unfolding prepare encode
compile c set = (prepare c set >>= λ ready. encode c ready)
