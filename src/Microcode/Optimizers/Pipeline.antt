-- ===== src/Microcode/Optimizers/Pipeline.antt =====
-- The three optimizers in the order of `Compiler::Compile`, on what the sequence transformer made.
use irata.Prelude.{
  ℕ, ◌≡◌, refl, sym, subst, ap, ap₂, map, ◌∙◌, true, List, [], ◌∷◌, ◌==◌, ==→eq, Bool-cases, inl,
  inr, and_true, ok,
}
use irata.Base.Phase.{TickPhase}
use irata.Microcode.Ir.{
  Step, InstructionVariant, on_variant, Instruction, InstructionSet, on_variants, on_variants-agree,
  AllSteps, AllSteps-on_variants,
}
use irata.Microcode.Sequence.{Sequencer, transform, validate}
use irata.Microcode.Sequence.Laws.{
  Sequenced, Sequenced-cons, transform-Sequenced, validate-Sequenced,
}
use irata.Microcode.Optimizers.{
  remove_empty, same_controls, steps_are_identical, dedupe_from, dedupe, merge, run_empty,
  run_duplicate, run_merging,
}
use irata.Microcode.Optimizers.Sequenced.{remove_empty-Sequenced, merge-Sequenced}

same_controls-eq : (cs ds : List ℕ) → same_controls cs ds ≡ true → cs ≡ ds
same_controls-eq [] [] h = refl
same_controls-eq [] (d ∷ ds) h = cc
same_controls-eq (c ∷ cs) [] h = cc
same_controls-eq (c ∷ cs) (d ∷ ds) h =
    let (here, behind) = and_true (c == d) (same_controls cs ds) h in
    rw (==→eq c d here, same_controls-eq cs ds behind)

steps_are_identical-controls :
    (a b : Step) → steps_are_identical a b ≡ true → a.controls ≡ b.controls
unfolding steps_are_identical
steps_are_identical-controls a b h = same_controls-eq a.controls b.controls (and_true _ _ h).1

-- The first step stays first.
dedupe_from-head : (s : Step) (rest : List Step) → (t : List Step) × dedupe_from s rest ≡ s ∷ t
unfolding dedupe_from
dedupe_from-head s [] = ([], refl)
dedupe_from-head s (t ∷ rest) = elim (Bool-cases (steps_are_identical s t)) [
  | inl e ↦ ((dedupe_from-head s rest).0, rw (e, dedupe_from) (dedupe_from-head s rest).1)
  | inr n ↦ (dedupe_from t rest, rw (n, dedupe_from) refl)
]

-- A step with the controls of the next one stands for it.
Sequenced-replace :
    (q : Sequencer) (s t : Step) (rest : List Step)
    → s.controls ≡ t.controls
    → Sequenced q (t ∷ rest)
    → Sequenced q (s ∷ rest)
Sequenced-replace q s t [] e h = rw e h
Sequenced-replace q s t (u ∷ rest) e h = (rw e h.0, h.1)

dedupe_from-Sequenced :
    (q : Sequencer) (s : Step) (rest : List Step)
    → Sequenced q (s ∷ rest)
    → Sequenced q (dedupe_from s rest)
unfolding dedupe_from
dedupe_from-Sequenced q s [] h = h
dedupe_from-Sequenced q s (t ∷ rest) h = elim (Bool-cases (steps_are_identical s t)) [
  | inl e ↦
      rw (e, dedupe_from)
        (dedupe_from-Sequenced q s rest
          (Sequenced-replace q s t rest (steps_are_identical-controls s t e) h.1))
  | inr n ↦
      let head = dedupe_from-head t rest in
      rw (n, dedupe_from)
        (Sequenced-cons q s (dedupe_from t rest) t head.0 head.1 h.0
          (dedupe_from-Sequenced q t rest h.1))
]

pub dedupe-Sequenced :
    (q : Sequencer) (steps : List Step) → Sequenced q steps → Sequenced q (dedupe steps)
unfolding dedupe
dedupe-Sequenced q [] h = tt
dedupe-Sequenced q (s ∷ rest) h = dedupe_from-Sequenced q s rest h

optimize_pass :
    (f g : List Step → List Step) (P : List Step → Type 0)
    → ((s : List Step) → P s → f s ≡ g s)
    → (is js : List Instruction) → is ≡ js
    → AllSteps P js
    → on_variants f is ≡ on_variants g js
optimize_pass f g P h is js e p = rw e (on_variants-agree f g P h js p)

on_variants-id : (is : List Instruction) → on_variants (λ s. s) is ≡ is
unfolding on_variants
on_variants-id [] = refl
on_variants-id (i ∷ is) =
    ap₂ ◌∷◌ (ap (λ vs. record i { variants = vs }) (variants i.variants)) (on_variants-id is)
  where
    variants : (vs : List InstructionVariant) → map (on_variant (λ s. s)) vs ≡ vs
    variants [] = refl
    variants (v ∷ vs) = ap (λ r. v ∷ r) (variants vs)

module _ (phase_of : ℕ → TickPhase) (q : Sequencer) (set : InstructionSet) where
  sequenced : AllSteps (Sequenced q) (transform q set).instructions
  sequenced = transform-Sequenced q set

  deduped-Sequenced : AllSteps (Sequenced q) (on_variants dedupe (transform q set).instructions)
  deduped-Sequenced =
      AllSteps-on_variants dedupe (Sequenced q) (Sequenced q) (dedupe-Sequenced q)
        (transform q set).instructions sequenced

  run_empty-transform : (run_empty (transform q set)).instructions ≡ (transform q set).instructions
  unfolding run_empty
  run_empty-transform =
      on_variants-agree remove_empty (λ s. s) (Sequenced q) (remove_empty-Sequenced q)
        (transform q set).instructions sequenced
      ∙ on_variants-id (transform q set).instructions

  run_duplicate-transform :
      (run_duplicate (run_empty (transform q set))).instructions
      ≡ on_variants dedupe (transform q set).instructions
  unfolding run_duplicate
  run_duplicate-transform = ap (on_variants dedupe) run_empty-transform

  merging-deduped :
      phase_of q.increment_control ≡ phase_of q.reset_control
      → (run_merging phase_of (run_duplicate (run_empty (transform q set)))).instructions
        ≡ on_variants dedupe (transform q set).instructions
  unfolding run_merging
  merging-deduped same_phase =
      ap (on_variants (merge phase_of)) run_duplicate-transform
      ∙ on_variants-agree (merge phase_of) (λ s. s) (Sequenced q)
          (merge-Sequenced phase_of q same_phase)
          (on_variants dedupe (transform q set).instructions) deduped-Sequenced
      ∙ on_variants-id (on_variants dedupe (transform q set).instructions)

  -- Run in the order of the compiler on the transformer's output, with the two step-counter controls
  -- in one phase, the empty-step and the merging optimizer change no step: the instructions are
  -- those of the transformer less the duplicate steps, and they pass the sequence validator.
  pub run_merging-transform :
      phase_of q.increment_control ≡ phase_of q.reset_control
      → let made = run_merging phase_of (run_duplicate (run_empty (transform q set))) in
        (made.instructions ≡ on_variants dedupe (transform q set).instructions)
        × validate q made ≡ ok tt
  run_merging-transform same_phase =
      let same = merging-deduped same_phase in
      (same, validate-Sequenced q _ (subst (AllSteps (Sequenced q)) (sym same) deduped-Sequenced))
