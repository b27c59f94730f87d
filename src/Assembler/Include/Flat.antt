-- ===== src/Assembler/Include/Flat.antt =====
-- What the include processor returns.
use irata.Prelude.{
  Text, ℕ, zero, suc, ◌<◌, ◌≡◌, refl, subst, arith, length, Bool, true, false, List, [], ◌∷◌, All,
  All-append, ok, ◌>>=◌, >>=-eq-ok, throw_if-then, ok_injective,
}
use irata.Assembler.{
  circular_include, Statement, directive_stmt, org, byte, include, label_decl, equ_decl,
  instruction_stmt,
}
use irata.Assembler.Include.{thrown, Files, stack_contains, stack_erase, process_program, process}

abbrev pub is_include : Statement → Bool
is_include (directive_stmt include operands path) = true
is_include _ = false

abbrev pub IsFlat : List Statement → Type 0
IsFlat = All (λ s. is_include s ≡ false)

module _ (files : Files) where
  kept :
      (fuel : ℕ) (stack : List Text) (dir : Text) (s : Statement) (rest out : List Statement)
      → is_include s ≡ false
      → (process_program files fuel stack dir rest >>= λ tail. ok (s ∷ tail)) ≡ ok out
      → ((tail : List Statement)
          → process_program files fuel stack dir rest ≡ ok tail
          → IsFlat tail)
      → IsFlat out
  kept fuel stack dir s rest out plain h flat =
      let (tail, behind, made) = >>=-eq-ok (process_program files fuel stack dir rest) _ h in
      let both : IsFlat (s ∷ tail) = (plain, flat tail behind) in
      subst IsFlat (ok_injective made) both

  process_program-IsFlat :
      (fuel : ℕ) (stack : List Text) (dir : Text) (statements out : List Statement)
      → process_program files fuel stack dir statements ≡ ok out
      → IsFlat out
  unfolding process_program
  process_program-IsFlat zero stack dir statements out h = cc
  process_program-IsFlat (suc fuel) stack dir [] out h = subst IsFlat (ok_injective h) tt
  process_program-IsFlat (suc fuel) stack dir (directive_stmt include operands path ∷ rest) out h =
      let (include_path, found, checked) = >>=-eq-ok (files.canonical dir path) _ h in
      let (new, loaded) =
        throw_if-then (stack_contains include_path stack) (thrown circular_include) _ checked in
      let (included, read, recursed) = >>=-eq-ok (files.load_and_parse include_path) _ loaded in
      let (processed, inner, merged) =
        >>=-eq-ok
          (process_program files fuel (stack_erase include_path (include_path ∷ stack))
            (files.parent_path include_path) included)
          _ recursed in
      let (tail, behind, made) = >>=-eq-ok (process_program files fuel stack dir rest) _ merged in
      subst IsFlat (ok_injective made) (
        All-append _ processed tail
          (process_program-IsFlat fuel _ (files.parent_path include_path) included processed inner)
          (process_program-IsFlat fuel stack dir rest tail behind))
  process_program-IsFlat (suc fuel) stack dir (directive_stmt org operands path ∷ rest) out h =
      kept fuel stack dir _ rest out refl h (process_program-IsFlat fuel stack dir rest)
  process_program-IsFlat (suc fuel) stack dir (directive_stmt byte operands path ∷ rest) out h =
      kept fuel stack dir _ rest out refl h (process_program-IsFlat fuel stack dir rest)
  process_program-IsFlat (suc fuel) stack dir (label_decl name ∷ rest) out h =
      kept fuel stack dir _ rest out refl h (process_program-IsFlat fuel stack dir rest)
  process_program-IsFlat (suc fuel) stack dir (equ_decl name value ∷ rest) out h =
      kept fuel stack dir _ rest out refl h (process_program-IsFlat fuel stack dir rest)
  process_program-IsFlat (suc fuel) stack dir (instruction_stmt mnemonic operands ∷ rest) out h =
      kept fuel stack dir _ rest out refl h (process_program-IsFlat fuel stack dir rest)

  -- The program that the include processor returns has no include directive left.
  pub process-IsFlat :
      (fuel : ℕ) (base_dir : Text) (program out : List Statement)
      → process files fuel base_dir program ≡ ok out
      → IsFlat out
  unfolding process
  process-IsFlat fuel base_dir program out h = process_program-IsFlat fuel [] base_dir program out h

  process_program-flat :
      (fuel : ℕ) (stack : List Text) (dir : Text) (program : List Statement)
      → IsFlat program
      → length program < fuel
      → process_program files fuel stack dir program ≡ ok program
  unfolding process_program
  process_program-flat zero stack dir program flat enough = absurd (omega arith)
  process_program-flat (suc fuel) stack dir [] flat enough = refl
  process_program-flat (suc fuel) stack dir (directive_stmt include operands path ∷ rest) flat
        enough =
      cc
  process_program-flat (suc fuel) stack dir (directive_stmt org operands path ∷ rest) flat enough =
      rw (process_program-flat fuel stack dir rest flat.1 (omega arith)) refl
  process_program-flat (suc fuel) stack dir (directive_stmt byte operands path ∷ rest) flat enough =
      rw (process_program-flat fuel stack dir rest flat.1 (omega arith)) refl
  process_program-flat (suc fuel) stack dir (label_decl name ∷ rest) flat enough =
      rw (process_program-flat fuel stack dir rest flat.1 (omega arith)) refl
  process_program-flat (suc fuel) stack dir (equ_decl name value ∷ rest) flat enough =
      rw (process_program-flat fuel stack dir rest flat.1 (omega arith)) refl
  process_program-flat (suc fuel) stack dir (instruction_stmt mnemonic operands ∷ rest) flat
        enough =
      rw (process_program-flat fuel stack dir rest flat.1 (omega arith)) refl

  -- A returned program has no include directive, and processing it again returns it as it is, on
  -- fuel above its length.
  pub process-idempotent :
      (fuel again : ℕ) (base_dir other_dir : Text) (program out : List Statement)
      → process files fuel base_dir program ≡ ok out
      → length out < again
      → IsFlat out × (process files again other_dir out ≡ ok out)
  unfolding process
  process-idempotent fuel again base_dir other_dir program out h enough =
      let flat = process-IsFlat fuel base_dir program out h in
      (flat, process_program-flat again [] other_dir out flat enough)
