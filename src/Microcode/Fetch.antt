-- ===== src/Microcode/Fetch.antt =====
-- The fetch preamble: microcode/src/compiler/fetch_transformer.cpp and fetch_validator.cpp.
pub mod Laws
use irata.Prelude.{
  ℕ, ◌+◌, ◌≡◌, refl, ap, ap₂, ◌∙◌, Bool, true, false, not, List, [], ◌∷◌, ◌++◌, map, keep, length,
  null, All, ◌==◌, arith, if◌then◌else◌, Result, ok, err, ◌>>=◌, ◌>>◌, throw_if,
}
use irata.Prelude.Int.{pos, ◌+ℤ◌, equal_ℤ}
use irata.Microcode.Ir.{
  Step, InstructionVariant, Instruction, InstructionSet, MicrocodeError, fetch_size_mismatch,
  fetch_step_mismatch, on_variants, each_variant, AllSteps, AllSteps-on_variants, AllSteps-each,
}
use irata.Microcode.Optimizers.{same_controls}

-- `++step.stage`
unfoldable pub next_stage : Step → Step
unfolding ◌+ℤ◌
next_stage s = record s { stage = s.stage +ℤ pos 1 }

unfoldable pub prefix_steps : List Step → List Step → List Step
unfolding next_stage
prefix_steps preamble steps = if null preamble then steps else preamble ++ map next_stage steps

-- `FetchTransformer::Run`
unfoldable pub transform : InstructionSet → InstructionSet
unfolding on_variants prefix_steps
transform set = record set {
  instructions = on_variants (prefix_steps set.fetch_preamble) set.instructions;
}

-- The steps of stage 0.
abbrev pub stage_zero : List Step → List Step
stage_zero = keep (λ s. equal_ℤ s.stage (pos 0))

unfoldable pub compare_steps : List Step → List Step → Result MicrocodeError (Unit {0})
compare_steps (s ∷ ss) (p ∷ ps) =
    throw_if (not (same_controls s.controls p.controls)) fetch_step_mismatch >> compare_steps ss ps
compare_steps _ _ = ok tt

unfoldable pub check_variant : List Step → List Step → Result MicrocodeError (Unit {0})
unfolding compare_steps
check_variant preamble steps = do
  throw_if (not (length (stage_zero steps) == length preamble)) fetch_size_mismatch
  compare_steps (stage_zero steps) preamble

-- `FetchValidator::Run`
unfoldable pub validate : InstructionSet → Result MicrocodeError (Unit {0})
unfolding each_variant check_variant
validate set =
    if null set.fetch_preamble
    then ok tt
    else each_variant (λ v. check_variant set.fetch_preamble v.steps) set.instructions
