-- ===== src/Microcode/Sequence.antt =====
-- The step counter's controls: microcode/src/compiler/sequence_transformer.cpp and
-- sequence_validator.cpp. Every step but the last asserts the increment, the last the reset.
pub mod Laws
use irata.Prelude.{
  ℕ, ◌≡◌, Bool, true, false, not, List, [], ◌∷◌, ◌++◌, any, ◌==◌, if◌then◌else◌, Result, ok, err,
  ◌>>=◌, ◌>>◌, throw_if,
}
use irata.Microcode.Ir.{
  Step, InstructionVariant, Instruction, InstructionSet, MicrocodeError, sequence_control_missing,
  on_variants, each_variant, asserts,
}

-- The two controls that the constructors take.
pub record Sequencer : Type 0 where
  pub increment_control : ℕ
  pub reset_control : ℕ

unfoldable pub add_control : ℕ → Step → Step
add_control control s =
    if asserts control s.controls then s else record s { controls = s.controls ++ (control ∷ []) }

-- The loop over the steps of a variant.
unfoldable pub sequence_steps : Sequencer → List Step → List Step
unfolding add_control
sequence_steps q [] = []
sequence_steps q (s ∷ []) = add_control q.reset_control s ∷ []
sequence_steps q (s ∷ t ∷ rest) = add_control q.increment_control s ∷ sequence_steps q (t ∷ rest)

-- `SequenceTransformer::Run`
unfoldable pub transform : Sequencer → InstructionSet → InstructionSet
unfolding on_variants sequence_steps
transform q set = record set { instructions = on_variants (sequence_steps q) set.instructions }

unfoldable pub check_steps : Sequencer → List Step → Result MicrocodeError (Unit {0})
check_steps q [] = ok tt
check_steps q (s ∷ []) =
    throw_if (not (asserts q.reset_control s.controls)) sequence_control_missing
check_steps q (s ∷ t ∷ rest) =
    throw_if (not (asserts q.increment_control s.controls)) sequence_control_missing
    >> check_steps q (t ∷ rest)

-- `SequenceValidator::Run`
unfoldable pub validate : Sequencer → InstructionSet → Result MicrocodeError (Unit {0})
unfolding each_variant check_steps
validate q set = each_variant (λ v. check_steps q v.steps) set.instructions
