-- ===== src/Microcode/Fetch/Laws.antt =====
-- The fetch transformer and the fetch validator, one behind the other.
use irata.Prelude.{
  ℕ, zero, suc, ◌≡◌, ◌≢◌, refl, ap, true, false, List, [], ◌∷◌, ◌++◌, map, keep, length, null, All,
  Bool-cases, ◌⊎◌, inl, inr, ==_self, arith, ok,
}
use irata.Prelude.Int.{ℤ, pos, negsuc, ◌+ℤ◌, equal_ℤ}
use irata.Microcode.Ir.{Step, InstructionSet, AllSteps, AllSteps-on_variants, AllSteps-each}
use irata.Microcode.Optimizers.{same_controls}
use irata.Microcode.Fetch.{
  prefix_steps, transform, stage_zero, compare_steps, check_variant, validate, next_stage,
}

-- The stage before 0 is the one that the transformer would make 0.
abbrev pub IsNotBefore : Step → Type 0
IsNotBefore s = s.stage ≢ negsuc 0

next_stage-nonzero : (stage : ℤ) → stage ≢ negsuc 0 → equal_ℤ (stage +ℤ pos 1) (pos 0) ≡ false
unfolding ◌+ℤ◌
next_stage-nonzero (pos n) h = ground arith
next_stage-nonzero (negsuc zero) h = absurd (h refl)
next_stage-nonzero (negsuc (suc n)) h = ground arith

no_stage_zero : (steps : List Step) → All IsNotBefore steps → stage_zero (map next_stage steps) ≡ []
unfolding next_stage
no_stage_zero [] h = refl
no_stage_zero (s ∷ rest) h = rw (next_stage-nonzero s.stage h.0, keep) (no_stage_zero rest h.1)

stage_zero-prefix :
    (preamble steps : List Step)
    → All (λ s. s.stage ≡ pos 0) preamble
    → All IsNotBefore steps
    → stage_zero (preamble ++ map next_stage steps) ≡ preamble
stage_zero-prefix [] steps h g = no_stage_zero steps g
stage_zero-prefix (p ∷ ps) steps h g =
    let first : equal_ℤ p.stage (pos 0) ≡ true = ap (λ n. equal_ℤ n (pos 0)) h.0 in
    rw (first, keep) (ap (λ l. p ∷ l) (stage_zero-prefix ps steps h.1 g))

same_controls_self : (cs : List ℕ) → same_controls cs cs ≡ true
same_controls_self [] = refl
same_controls_self (c ∷ cs) = rw (==_self c) (same_controls_self cs)

compare_steps_self : (steps : List Step) → compare_steps steps steps ≡ ok tt
unfolding compare_steps
compare_steps_self [] = refl
compare_steps_self (s ∷ rest) = rw (same_controls_self s.controls) (compare_steps_self rest)

check_variant-prefixed :
    (preamble steps : List Step)
    → stage_zero steps ≡ preamble
    → check_variant preamble steps ≡ ok tt
unfolding check_variant
check_variant-prefixed preamble steps e =
    rw (e, ==_self (length preamble)) (compare_steps_self preamble)

prefix_steps-fetched :
    (preamble steps : List Step)
    → null preamble ≡ false
    → All (λ s. s.stage ≡ pos 0) preamble
    → All IsNotBefore steps
    → stage_zero (prefix_steps preamble steps) ≡ preamble
unfolding prefix_steps
prefix_steps-fetched preamble steps some_step h g =
    rw some_step (stage_zero-prefix preamble steps h g)

-- With a preamble of stage 0, and no step of a variant at stage -1, the transformer's output passes the
-- fetch validator.
pub validate-transform :
    (set : InstructionSet)
    → All (λ s. s.stage ≡ pos 0) set.fetch_preamble
    → AllSteps (λ steps. All IsNotBefore steps) set.instructions
    → validate (transform set) ≡ ok tt
unfolding validate transform
validate-transform set h g = go (Bool-cases (null set.fetch_preamble))
  where
    fetched :
        null set.fetch_preamble ≡ false
        → AllSteps (λ s. stage_zero s ≡ set.fetch_preamble) (transform set).instructions
    fetched some_step =
        AllSteps-on_variants (prefix_steps set.fetch_preamble) (λ s. All IsNotBefore s)
          (λ s. stage_zero s ≡ set.fetch_preamble)
          (λ s u. prefix_steps-fetched set.fetch_preamble s some_step h u) set.instructions g

    go :
        (null set.fetch_preamble ≡ true) ⊎ (null set.fetch_preamble ≡ false)
        → validate (transform set) ≡ ok tt
    go (inl none_there) = rw none_there refl
    go (inr some_step) = rw some_step (
        AllSteps-each _ (λ s. stage_zero s ≡ set.fetch_preamble)
          (λ v e. check_variant-prefixed set.fetch_preamble v.steps e) (transform set).instructions
          (fetched some_step))
