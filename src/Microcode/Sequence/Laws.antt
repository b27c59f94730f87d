-- ===== src/Microcode/Sequence/Laws.antt =====
-- The sequence transformer and the sequence validator, on the steps of a variant.
use irata.Prelude.{
  ℕ, ◌≡◌, refl, true, List, [], ◌∷◌, ◌++◌, arith, All, ok, throw_if-then, throw_if-eq-ok, not-false,
}
use irata.Microcode.Ir.{
  Step, InstructionVariant, Instruction, InstructionSet, asserts, AllSteps, AllSteps-on_variants,
  AllSteps-each,
}
use irata.Microcode.Sequence.{
  Sequencer, add_control, sequence_steps, transform, check_steps, validate,
}

-- Every step but the last asserts the increment, and the last one the reset.
abbrev pub Sequenced : Sequencer → List Step → Type 0
Sequenced q [] = Unit
Sequenced q (s ∷ []) = asserts q.reset_control s.controls ≡ true
Sequenced q (s ∷ t ∷ rest) =
    (asserts q.increment_control s.controls ≡ true) × Sequenced q (t ∷ rest)

asserts-append : (c : ℕ) (cs : List ℕ) → asserts c (cs ++ (c ∷ [])) ≡ true
asserts-append c [] = ground arith
asserts-append c (d ∷ cs) = ground (arith, asserts-append c cs)

asserts-add_control : (c : ℕ) (s : Step) → asserts c (add_control c s).controls ≡ true
unfolding add_control
asserts-add_control c s = ground (arith, asserts-append c s.controls)

pub Sequenced-cons :
    (q : Sequencer) (s : Step) (rest : List Step) (t : Step) (tail : List Step)
    → rest ≡ t ∷ tail
    → asserts q.increment_control s.controls ≡ true
    → Sequenced q rest
    → Sequenced q (s ∷ rest)
Sequenced-cons q s [] t tail e h r = cc
Sequenced-cons q s (u ∷ rest) t tail e h r = (h, r)

pub sequence_steps-Sequenced :
    (q : Sequencer) (steps : List Step) → Sequenced q (sequence_steps q steps)
unfolding sequence_steps
sequence_steps-Sequenced q [] = tt
sequence_steps-Sequenced q (s ∷ []) = asserts-add_control q.reset_control s
sequence_steps-Sequenced q (s ∷ t ∷ []) =
    (asserts-add_control q.increment_control s, asserts-add_control q.reset_control t)
sequence_steps-Sequenced q (s ∷ t ∷ u ∷ rest) =
    (asserts-add_control q.increment_control s, sequence_steps-Sequenced q (t ∷ u ∷ rest))

pub check_steps-Sequenced :
    (q : Sequencer) (steps : List Step) → Sequenced q steps → check_steps q steps ≡ ok tt
unfolding check_steps
check_steps-Sequenced q [] h = refl
check_steps-Sequenced q (s ∷ []) h = rw h
check_steps-Sequenced q (s ∷ t ∷ rest) h = rw h.0 (check_steps-Sequenced q (t ∷ rest) h.1)

pub Sequenced-check_steps :
    (q : Sequencer) (steps : List Step) → check_steps q steps ≡ ok tt → Sequenced q steps
unfolding check_steps
Sequenced-check_steps q [] h = tt
Sequenced-check_steps q (s ∷ []) h = not-false _ (throw_if-eq-ok _ _ h)
Sequenced-check_steps q (s ∷ t ∷ rest) h =
    let (here, behind) = throw_if-then _ _ _ h in
    (not-false _ here, Sequenced-check_steps q (t ∷ rest) behind)

pub any_steps :
    (P : List Step → Type 0) → ((s : List Step) → P s) → (is : List Instruction) → AllSteps P is
any_steps P h [] = tt
any_steps P h (i ∷ is) = (variants i.variants, any_steps P h is)
  where
    variants : (vs : List InstructionVariant) → All (λ v. P v.steps) vs
    variants [] = tt
    variants (v ∷ vs) = (h v.steps, variants vs)

pub transform-Sequenced :
    (q : Sequencer) (set : InstructionSet) → AllSteps (Sequenced q) (transform q set).instructions
unfolding transform
transform-Sequenced q set =
    AllSteps-on_variants (sequence_steps q) (λ s. Unit {0}) (Sequenced q)
      (λ s h. sequence_steps-Sequenced q s) set.instructions
      (any_steps (λ s. Unit {0}) (λ s. tt) set.instructions)

pub validate-Sequenced :
    (q : Sequencer) (set : InstructionSet)
    → AllSteps (Sequenced q) set.instructions
    → validate q set ≡ ok tt
unfolding validate
validate-Sequenced q set h =
    AllSteps-each _ (Sequenced q) (λ v s. check_steps-Sequenced q v.steps s) set.instructions h
