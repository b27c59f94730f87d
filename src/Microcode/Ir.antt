-- ===== src/Microcode/Ir.antt =====
-- The intermediate representation: microcode/include/irata2/microcode/ir. A control is the address
-- of its `ControlInfo`, which is what the passes compare; what they read behind the address is a
-- parameter of the pass. A stage is an `int`.
use irata.Prelude.Int.{ℤ}
use irata.Prelude.{
  ℕ, ◌≡◌, refl, Bool, List, [], ◌∷◌, map, any, All, Text, ◌==◌, Result, ok, ◌>>◌, ◌∙◌, ap, ap₂,
}

pub record Step : Type 0 where
  pub stage : ℤ
  pub controls : List ℕ

pub record InstructionVariant : Type 0 where
  pub status_conditions : List (Text × Bool)
  pub steps : List Step

pub record Instruction : Type 0 where
  pub opcode : ℕ
  pub variants : List InstructionVariant

pub record InstructionSet : Type 0 where
  pub fetch_preamble : List Step
  pub instructions : List Instruction

-- The `MicrocodeError`s, by the pass that throws them.
pub data MicrocodeError : Type 0 where
  fetch_size_mismatch fetch_step_mismatch sequence_control_missing : MicrocodeError
  start_not_zero not_monotonic stage_gap : MicrocodeError
  multiple_writers readers_without_writer control_conflict : MicrocodeError
  unknown_opcode duplicate_opcode incomplete_isa : MicrocodeError
  control_not_registered too_many_controls : MicrocodeError
  opcode_out_of_range step_out_of_range table_conflict : MicrocodeError
  status_bit_out_of_range status_not_configured unknown_status : MicrocodeError
  multiple_status_bits overlapping_coverage incomplete_coverage : MicrocodeError

-- `for (x : xs) check(x);` where the check may throw.
unfoldable pub each {ℓ} :
    {A : Type ℓ}
    → (A → Result MicrocodeError (Unit {0}))
    → List A
    → Result MicrocodeError (Unit {0})
each check [] = ok tt
each check (x ∷ xs) = check x >> each check xs

-- The two loops of a pass, over the instructions and their variants.
abbrev pub on_variant : (List Step → List Step) → InstructionVariant → InstructionVariant
on_variant f v = record v { steps = f v.steps }

abbrev pub on_instruction : (List Step → List Step) → Instruction → Instruction
on_instruction f i = record i { variants = map (on_variant f) i.variants }

unfoldable pub on_variants : (List Step → List Step) → List Instruction → List Instruction
on_variants f = map (on_instruction f)

unfoldable pub each_variant :
    (InstructionVariant → Result MicrocodeError (Unit {0}))
    → List Instruction
    → Result MicrocodeError (Unit {0})
unfolding each
each_variant check = each (λ i. each check i.variants)

-- Every step list of the instructions satisfies a predicate.
abbrev pub AllSteps : (List Step → Type 0) → List Instruction → Type 0
AllSteps P = All (λ i. All (λ v. P v.steps) i.variants)

-- `std::find` and `std::any_of` over the controls of a step.
abbrev pub asserts : ℕ → List ℕ → Bool
asserts control = any (λ c. c == control)

pub each-ok {ℓ} :
    {A : Type ℓ} (check : A → Result MicrocodeError (Unit {0})) (xs : List A)
    → All (λ x. check x ≡ ok tt) xs
    → each check xs ≡ ok tt
unfolding each
each-ok check [] h = refl
each-ok check (x ∷ xs) h = ap (λ m. m >> each check xs) h.0 ∙ each-ok check xs h.1

-- Two passes that agree on every step list agree on the instructions.
on_variants_agree :
    (f g : List Step → List Step) (P : List Step → Type 0)
    → ((s : List Step) → P s → f s ≡ g s)
    → (vs : List InstructionVariant) → All (λ v. P v.steps) vs
    → map (on_variant f) vs ≡ map (on_variant g) vs
on_variants_agree f g P h [] p = refl
on_variants_agree f g P h (v ∷ vs) p =
    ap₂ ◌∷◌ (ap (λ s. record v { steps = s }) (h v.steps p.0)) (on_variants_agree f g P h vs p.1)

pub on_variants-agree :
    (f g : List Step → List Step) (P : List Step → Type 0)
    → ((s : List Step) → P s → f s ≡ g s)
    → (is : List Instruction) → AllSteps P is
    → on_variants f is ≡ on_variants g is
unfolding on_variants
on_variants-agree f g P h [] p = refl
on_variants-agree f g P h (i ∷ is) p =
    ap₂ ◌∷◌ (ap (λ vs. record i { variants = vs }) (on_variants_agree f g P h i.variants p.0))
      (on_variants-agree f g P h is p.1)

All-mapped :
    (f : List Step → List Step) (P Q : List Step → Type 0)
    → ((s : List Step) → P s → Q (f s))
    → (vs : List InstructionVariant) → All (λ v. P v.steps) vs
    → All (λ v. Q v.steps) (map (on_variant f) vs)
All-mapped f P Q h [] p = tt
All-mapped f P Q h (v ∷ vs) p = (h v.steps p.0, All-mapped f P Q h vs p.1)

pub AllSteps-on_variants :
    (f : List Step → List Step) (P Q : List Step → Type 0)
    → ((s : List Step) → P s → Q (f s))
    → (is : List Instruction) → AllSteps P is
    → AllSteps Q (on_variants f is)
unfolding on_variants
AllSteps-on_variants f P Q h [] p = tt
AllSteps-on_variants f P Q h (i ∷ is) p =
    (All-mapped f P Q h i.variants p.0, AllSteps-on_variants f P Q h is p.1)

pub AllSteps-each :
    (check : InstructionVariant → Result MicrocodeError (Unit {0})) (P : List Step → Type 0)
    → ((v : InstructionVariant) → P v.steps → check v ≡ ok tt)
    → (is : List Instruction) → AllSteps P is
    → each_variant check is ≡ ok tt
unfolding each_variant
AllSteps-each check P h is p = each-ok _ is (instructions is p)
  where
    variants :
        (vs : List InstructionVariant) → All (λ v. P v.steps) vs → All (λ v. check v ≡ ok tt) vs
    variants [] q = tt
    variants (v ∷ vs) q = (h v q.0, variants vs q.1)

    instructions :
        (js : List Instruction) → AllSteps P js → All (λ i. each check i.variants ≡ ok tt) js
    instructions [] q = tt
    instructions (i ∷ js) q =
        (each-ok check i.variants (variants i.variants q.0), instructions js q.1)
