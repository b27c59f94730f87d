-- ===== src/Assembler/Branch.antt =====
-- What the assembler makes of a branch, and what the program counter makes of that.
use irata.Prelude.{
  Text, same_text, find_name, All, List, [], ◌∷◌, none, some, Bool-cases, Option-cases, refl, inl,
  inr, sym, ap, ◌∙◌, ℕ, ◌+◌, ◌%◌, ◌≤◌, ◌<◌, ◌≡◌, true, false, ok, >>=-eq-ok, arith,
}
use irata.Sim.Counter.{Controls, advance, tick_process, tick_process-advance}
use irata.Assembler.{
  Names, Operand, OperandValue, number, label, resolve_operand, resolve_target, branch_offset,
  resolve_relative_operand,
}

some_injective : {A : Type 0} {a b : A} → some a ≡ some b → a ≡ b
some_injective h = cc

find_name-All :
    (limit : ℕ) (name : Text) (es : List (Text × ℕ)) (value : ℕ)
    → All (λ e. e.1 < limit) es
    → find_name name es ≡ some value
    → value < limit
find_name-All limit name [] value h f = cc
find_name-All limit name (e ∷ es) value h f = elim (Bool-cases (same_text e.0 name)) [
  | inl y ↦ omega (arith, h.0, some_injective (rw y at f))
  | inr n ↦ find_name-All limit name es value h.1 (rw n at f)
]

pub resolve_target-word :
    (names : Names) (operand : Operand) (target : ℕ)
    → All (λ e. e.1 < 65536) names.symbols
    → resolve_target names operand ≡ ok target
    → target < 65536
unfolding resolve_target resolve_operand
resolve_target-word names operand target words h = by_value operand.value refl
  where
    from_table :
        (name : Text)
        → find_name name names.constants ≡ none
        → operand.value ≡ label name
        → target < 65536
    from_table name c e = elim (Option-cases (find_name name names.symbols)) [
      | inl s ↦ absurd (ground (arith, h, c, e, s))
      | inr (a, s) ↦
          let same : a ≡ target = ground (arith, h, c, e, s) in
          omega (arith, same, find_name-All 65536 name names.symbols a words s)
    ]

    by_value : (v : OperandValue) → operand.value ≡ v → target < 65536
    by_value (number n) e = ground (arith, h, e)
    by_value (label name) e = elim (Option-cases (find_name name names.constants)) [
      | inl c ↦ from_table name c e
      | inr (v, c) ↦ ground (arith, h, c, e)
    ]

-- The controls of the tick that takes a branch.
abbrev pub take_branch : Controls
take_branch = record { reset = false; increment = false; add_signed_offset = true }

branch_offset-target :
    (base target offset : ℕ)
    → branch_offset base target ≡ ok offset
    → target ≤ 0xFFFF
    → (offset < 256) × ((base % 65536 + advance take_branch offset) % 65536 ≡ target)
unfolding branch_offset
branch_offset-target base target offset h fits = ground arith

-- A branch that assembles is taken to its target: with the program counter behind the two bytes of
-- the instruction, adding the emitted byte as a signed offset gives the operand's value.
pub resolve_relative_operand-target :
    (names : Names) (operand : Operand) (address offset : ℕ)
    → All (λ e. e.1 < 65536) names.symbols
    → resolve_relative_operand names operand address ≡ ok offset
    → resolve_target names operand
      ≡ ok (
          (tick_process take_branch
            (record { value = (address + 2) % 65536; signed_offset = offset })).value)
unfolding resolve_relative_operand
resolve_relative_operand-target names operand address offset words h =
    let (target, resolved, encoded) = >>=-eq-ok _ _ h in
    let (small, lands) =
      branch_offset-target (address + 2) target offset encoded
        (omega (arith, resolve_target-word names operand target words resolved)) in
    let ticked =
      (tick_process-advance take_branch
        (record { value = (address + 2) % 65536; signed_offset = offset }) (omega arith)
        (omega (arith, small))).0
      ∙ lands in
    resolved ∙ ap ok (sym ticked)
