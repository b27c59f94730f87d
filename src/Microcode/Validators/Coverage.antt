-- ===== src/Microcode/Validators/Coverage.antt =====
-- The validators of the instruction set: status_validator.cpp, isa_coverage_validator.cpp and
-- stage_validator.cpp of microcode/src/compiler.
use irata.Prelude.{
  ℕ, ◌^◌, Bool, false, not, List, [], ◌∷◌, length, null, ◌==◌, ltb, if◌then◌else◌, Result, ok,
  ◌>>=◌, ◌>>◌, throw_if,
}
use irata.Prelude.Int.{ℤ, pos, ◌+ℤ◌, ltb_ℤ, equal_ℤ}
use irata.Microcode.Ir.{
  Step, InstructionVariant, Instruction, InstructionSet, MicrocodeError, each, each_variant,
  asserts, start_not_zero, not_monotonic, stage_gap, multiple_status_bits, overlapping_coverage,
  incomplete_coverage, unknown_opcode, duplicate_opcode, incomplete_isa,
}
use irata.Microcode.Encoder.{StatusBits, expand_partial}

-- `covered_statuses.insert(status).second`, for every status of a variant.
unfoldable pub cover : List ℕ → List ℕ → Result MicrocodeError (List ℕ)
cover covered [] = ok covered
cover covered (s ∷ rest) =
    throw_if (asserts s covered) overlapping_coverage >> cover (s ∷ covered) rest

-- The loop over the variants of an instruction.
unfoldable pub cover_variants :
    StatusBits → List ℕ → List InstructionVariant → Result MicrocodeError (List ℕ)
unfolding cover
cover_variants bits covered [] = ok covered
cover_variants bits covered (v ∷ rest) =
    throw_if (ltb 1 (length v.status_conditions)) multiple_status_bits
    >> (expand_partial bits v.status_conditions >>= λ expanded.
        cover covered expanded >>= λ now. cover_variants bits now rest)

abbrev pub is_unconditional : List InstructionVariant → Bool
is_unconditional (v ∷ []) = null v.status_conditions
is_unconditional _ = false

unfoldable pub check_coverage : StatusBits → Instruction → Result MicrocodeError (Unit {0})
unfolding cover_variants
check_coverage bits i =
    if is_unconditional i.variants
    then ok tt
    else if null i.variants
    then ok tt
    else (cover_variants bits [] i.variants >>= λ covered.
        throw_if (not (length covered == 2 ^ length bits)) incomplete_coverage)

-- `StatusValidator::Run`
unfoldable pub validate_statuses : StatusBits → InstructionSet → Result MicrocodeError (Unit {0})
unfolding each check_coverage
validate_statuses bits set = each (check_coverage bits) set.instructions

-- The loop of `IsaCoverageValidator::Run`, with the opcodes seen.
unfoldable pub see_opcodes : List ℕ → List ℕ → List Instruction → Result MicrocodeError (List ℕ)
see_opcodes expected seen [] = ok seen
see_opcodes expected seen (i ∷ rest) =
    throw_if (not (asserts i.opcode expected)) unknown_opcode
    >> (throw_if (asserts i.opcode seen) duplicate_opcode
        >> see_opcodes expected (i.opcode ∷ seen) rest)

-- `IsaCoverageValidator::Run`; `expected` is the set of the instructions' opcodes.
unfoldable pub validate_opcodes : List ℕ → InstructionSet → Result MicrocodeError (Unit {0})
unfolding see_opcodes
validate_opcodes expected set =
    (see_opcodes expected [] set.instructions >>= λ seen.
    throw_if (not (length seen == length expected)) incomplete_isa)

-- The stages never fall; the first step has none before it.
unfoldable pub check_order : ℤ → List Step → Result MicrocodeError (Unit {0})
check_order prev_stage [] = ok tt
check_order prev_stage (s ∷ rest) =
    throw_if (ltb_ℤ s.stage prev_stage) not_monotonic >> check_order s.stage rest

-- `stages.insert(stage)` into an ordered set.
abbrev pub insert_stage : ℤ → List ℤ → List ℤ
insert_stage stage [] = stage ∷ []
insert_stage stage (t ∷ ts) =
    if ltb_ℤ stage t
    then stage ∷ t ∷ ts
    else if equal_ℤ stage t
    then t ∷ ts
    else t ∷ insert_stage stage ts

unfoldable pub stages_of : List ℤ → List Step → List ℤ
stages_of stages [] = stages
stages_of stages (s ∷ rest) = stages_of (insert_stage s.stage stages) rest

unfoldable pub check_gaps : ℤ → List ℤ → Result MicrocodeError (Unit {0})
unfolding ◌+ℤ◌
check_gaps expected_stage [] = ok tt
check_gaps expected_stage (stage ∷ rest) =
    throw_if (not (equal_ℤ stage expected_stage)) stage_gap
    >> check_gaps (expected_stage +ℤ pos 1) rest

-- The checks of the preamble and of each variant, which are the same.
unfoldable pub check_stages : List Step → Result MicrocodeError (Unit {0})
unfolding check_order stages_of check_gaps
check_stages [] = ok tt
check_stages (s ∷ rest) = do
  throw_if (not (equal_ℤ s.stage (pos 0))) start_not_zero
  check_order s.stage rest
  check_gaps (pos 0) (stages_of [] (s ∷ rest))

-- `StageValidator::Run`
unfoldable pub validate_stages : InstructionSet → Result MicrocodeError (Unit {0})
unfolding each_variant check_stages
validate_stages set =
    check_stages set.fetch_preamble >> each_variant (λ v. check_stages v.steps) set.instructions
