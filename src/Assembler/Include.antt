-- ===== src/Assembler/Include.antt =====
-- assembler/src/include_processor.cpp. What the file system and the parser give for a path is a
-- parameter, and the recursion into included files is on fuel, since the code does not bound it.
pub mod Cycles
pub mod Flat
use irata.Prelude.{
  Text, same_text, ℕ, zero, suc, Bool, true, false, List, [], ◌∷◌, ◌++◌, any, keep, not,
  if◌then◌else◌, Result, ok, err, ◌>>=◌, ◌>>◌, throw_if,
}
use irata.Assembler.{
  AssemblerError, circular_include, Operand, Statement, directive_stmt, org, byte, include,
  label_decl, equ_decl, instruction_stmt,
}

-- An exception, or a recursion that the fuel did not reach the end of.
pub data IncludeFault : Type 0 where
  thrown : AssemblerError → IncludeFault
  unfinished : IncludeFault

-- `std::filesystem::canonical(current_dir / path)`, `parent_path` and `LoadAndParse`.
pub record Files : Type 0 where
  pub canonical : Text → Text → Result IncludeFault Text
  pub parent_path : Text → Text
  pub load_and_parse : Text → Result IncludeFault (List Statement)

-- `include_stack_`, a set of paths.
abbrev pub stack_contains : Text → List Text → Bool
stack_contains path = any (λ p. same_text p path)

abbrev pub stack_erase : Text → List Text → List Text
stack_erase path = keep (λ p. not (same_text p path))

-- `ProcessProgram`. The stack that the recursive call sees is the one after the `erase`.
unfoldable pub process_program :
    Files → ℕ → List Text → Text → List Statement → Result IncludeFault (List Statement)
process_program files zero stack current_dir statements = err unfinished
process_program files (suc fuel) stack current_dir [] = ok []
process_program files (suc fuel) stack current_dir (directive_stmt include operands path ∷ rest) =
    let after = process_program files fuel stack current_dir rest in
    let recurse : Text → List Statement → Result IncludeFault (List Statement) =
      λ include_path included.
        process_program files fuel (stack_erase include_path (include_path ∷ stack))
          (files.parent_path include_path) included in
    (files.canonical current_dir path >>= λ include_path.
    throw_if (stack_contains include_path stack) (thrown circular_include)
    >> (files.load_and_parse include_path >>= λ included.
        recurse include_path included >>= λ processed. after >>= λ tail. ok (processed ++ tail)))
process_program files (suc fuel) stack current_dir (s ∷ rest) =
    (process_program files fuel stack current_dir rest >>= λ tail. ok (s ∷ tail))

-- `IncludeProcessor::Process`
unfoldable pub process : Files → ℕ → Text → List Statement → Result IncludeFault (List Statement)
unfolding process_program
process files fuel base_dir program = process_program files fuel [] base_dir program
