-- ===== src/Microcode/Optimizers.antt =====
-- The optimizers: microcode/src/compiler/empty_step_optimizer.cpp, duplicate_step_optimizer.cpp and
-- step_merging_optimizer.cpp. Each rewrites the fetch preamble and the steps of every variant.
pub mod Sequenced
pub mod Pipeline
use irata.Prelude.{
  ℕ, ◌+◌, ◌≡◌, Bool, true, false, not, ◌&&◌, List, [], ◌∷◌, ◌++◌, any, keep, null, ◌==◌, ltb,
  if◌then◌else◌,
}
use irata.Prelude.Int.{equal_ℤ}
use irata.Base.Phase
use irata.Base.Phase.{TickPhase, before}
use irata.Microcode.Ir.{Step, Instruction, InstructionSet, on_variants, asserts}

abbrev pub optimize : (List Step → List Step) → InstructionSet → InstructionSet
optimize f set = record {
  fetch_preamble = f set.fetch_preamble;
  instructions = on_variants f set.instructions;
}

unfoldable pub remove_empty : List Step → List Step
remove_empty = keep (λ s. not (null s.controls))

-- `EmptyStepOptimizer::Run`
unfoldable pub run_empty : InstructionSet → InstructionSet
unfolding on_variants remove_empty
run_empty = optimize remove_empty

-- The loop that compares the controls, after the sizes.
abbrev pub same_controls : List ℕ → List ℕ → Bool
same_controls [] [] = true
same_controls [] (d ∷ ds) = false
same_controls (c ∷ cs) [] = false
same_controls (c ∷ cs) (d ∷ ds) = c == d && same_controls cs ds

unfoldable pub steps_are_identical : Step → Step → Bool
steps_are_identical a b = equal_ℤ a.stage b.stage && same_controls a.controls b.controls

-- The loop of the duplicate optimizer, with `deduplicated.back()`.
unfoldable pub dedupe_from : Step → List Step → List Step
unfolding steps_are_identical
dedupe_from last [] = last ∷ []
dedupe_from last (s ∷ rest) = elim (steps_are_identical last s) [
  | true ↦ dedupe_from last rest
  | false ↦ last ∷ dedupe_from s rest
]

unfoldable pub dedupe : List Step → List Step
unfolding dedupe_from
dedupe [] = []
dedupe (s ∷ rest) = dedupe_from s rest

-- `DuplicateStepOptimizer::Run`
unfoldable pub run_duplicate : InstructionSet → InstructionSet
unfolding on_variants dedupe
run_duplicate = optimize dedupe

-- What the merging optimizer reads behind a control's address is its phase.
module _ (phase_of : ℕ → TickPhase) where
  unfoldable pub later_phase : TickPhase → List ℕ → TickPhase
  later_phase best [] = best
  later_phase best (c ∷ cs) = later_phase (if before best (phase_of c) then phase_of c else best) cs

  unfoldable pub max_phase : Step → TickPhase
  unfolding later_phase
  max_phase s = later_phase Phase.none s.controls

  unfoldable pub earlier_phase : TickPhase → List ℕ → TickPhase
  earlier_phase best [] = best
  earlier_phase best (c ∷ cs) =
      earlier_phase (if before (phase_of c) best then phase_of c else best) cs

  unfoldable pub min_phase : Step → TickPhase
  unfolding earlier_phase
  min_phase s = earlier_phase Phase.clear s.controls

  unfoldable pub step_strictly_precedes : Step → Step → Bool
  unfolding max_phase min_phase
  step_strictly_precedes a b =
      if null a.controls
      then true
      else if null b.controls
      then false
      else before (max_phase a) (min_phase b)

  unfoldable pub can_merge : Step → Step → Bool
  unfolding step_strictly_precedes
  can_merge a b = if not (equal_ℤ a.stage b.stage) then false else step_strictly_precedes a b

  -- The loop of `MergeSteps` over the controls of the second step.
  unfoldable pub merge_controls : List ℕ → List ℕ → List ℕ
  merge_controls a [] = a
  merge_controls a (c ∷ cs) = merge_controls (if asserts c a then a else a ++ (c ∷ [])) cs

  unfoldable pub merge_steps : Step → Step → Step
  unfolding merge_controls
  merge_steps a b = record a { controls = merge_controls a.controls b.controls }

  -- The loop of the merging optimizer, with `optimized.back()`.
  unfoldable pub merge_from : Step → List Step → List Step
  unfolding can_merge merge_steps
  merge_from last [] = last ∷ []
  merge_from last (s ∷ rest) = elim (can_merge last s) [
    | true ↦ merge_from (merge_steps last s) rest
    | false ↦ last ∷ merge_from s rest
  ]

  unfoldable pub merge : List Step → List Step
  unfolding merge_from
  merge [] = []
  merge (s ∷ rest) = merge_from s rest

  -- `StepMergingOptimizer::Run`
  unfoldable pub run_merging : InstructionSet → InstructionSet
  unfolding on_variants merge
  run_merging = optimize merge
