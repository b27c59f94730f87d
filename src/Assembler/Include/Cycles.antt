-- ===== src/Assembler/Include/Cycles.antt =====
-- Files that include themselves.
use irata.Prelude.{Text, same_text_self, ℕ, zero, suc, ◌≡◌, refl, List, [], ◌∷◌, keep, ok, err}
use irata.Assembler.{Operand, Statement, directive_stmt, include}
use irata.Assembler.Include.{unfinished, Files, stack_erase, process_program, process}

-- The path that was just inserted is gone before the recursion.
stack_erase-cons : (path : Text) → stack_erase path (path ∷ []) ≡ []
stack_erase-cons path = rw (same_text_self path, keep) refl

-- A file that begins with an include of itself is expanded without end: whatever the fuel, the
-- processor neither returns nor reports the circular include.
pub process-self_include :
    (files : Files) (fuel : ℕ) (path name : Text) (operands : List Operand) (rest : List Statement)
    → files.canonical (files.parent_path path) name ≡ ok path
    → files.load_and_parse path ≡ ok (directive_stmt include operands name ∷ rest)
    → process files fuel (files.parent_path path) (directive_stmt include operands name ∷ rest)
      ≡ err unfinished
unfolding process process_program
process-self_include files zero path name operands rest c l = refl
process-self_include files (suc fuel) path name operands rest c l =
    rw (c, l, stack_erase-cons path, process-self_include files fuel path name operands rest c l)
      refl
