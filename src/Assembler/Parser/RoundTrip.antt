-- ===== src/Assembler/Parser/RoundTrip.antt =====
-- Instructions that are printed as tokens and parsed again: ParseInstruction of
-- assembler/src/parser.cpp.
use irata.Prelude.{
  Text, ℕ, zero, suc, ◌+◌, ◌≤◌, ◌<◌, ◌≡◌, refl, ap, ◌∙◌, Bool, true, false, Option, none, some,
  List, [], ◌∷◌, length, ok, arith,
}
use irata.Assembler.Lexer
use irata.Assembler.Lexer.{Token, TokenKind, peek}
use irata.Assembler.{
  no_index, index_x, index_y, Operand, instruction_stmt, IndexRegister, directive_stmt,
  DirectiveType,
}
use irata.Assembler.Parser.{
  at_line_end, consume, index_of, is_x, is_y, check, with_operand, instruction_operands,
  parse_instruction, directive_operands, parse_operands,
}
use irata.Assembler.Parser.Printed.{
  Spelled, literal, name, parenthesized, operand_of, IsSpelled, close, token, print_operand,
  parse_operand-print_operand,
}

-- A name behind a comma is no index register.
abbrev pub IsNoRegister : Spelled → Type 0
IsNoRegister (name false t) = (is_x t ≡ false) × (is_y t ≡ false)
IsNoRegister s = Unit

abbrev pub print_index : IndexRegister → List Token → List Token
print_index no_index rest = rest
print_index index_x rest =
    token Lexer.comma (b',' ∷ []) none ∷ token Lexer.identifier (b'x' ∷ []) none ∷ rest
print_index index_y rest =
    token Lexer.comma (b',' ∷ []) none ∷ token Lexer.identifier (b'y' ∷ []) none ∷ rest

abbrev pub print_operands : Spelled → List Spelled → IndexRegister → List Token → List Token
print_operands s [] register rest = print_operand s (print_index register rest)
print_operands s (u ∷ us) register rest =
    print_operand s (token Lexer.comma (b',' ∷ []) none ∷ print_operands u us register rest)

-- The last operand takes the register behind it.
abbrev pub indexed_by : IndexRegister → Operand → Operand
indexed_by no_index o = o
indexed_by index_x o = record o { index_register = index_x }
indexed_by index_y o = record o { index_register = index_y }

abbrev pub operands_of : Spelled → List Spelled → IndexRegister → List Operand
operands_of s [] register = indexed_by register (operand_of s) ∷ []
operands_of s (u ∷ us) register = operand_of s ∷ operands_of u us register

abbrev pub AreSpelled : Spelled → List Spelled → Type 0
AreSpelled s [] = IsSpelled s
AreSpelled s (u ∷ us) = IsSpelled s × IsNoRegister u × AreSpelled u us

index_of-print_operand :
    (s : Spelled) (rest : List Token) → IsNoRegister s → index_of (print_operand s rest) ≡ none
index_of-print_operand (literal true n) rest h = refl
index_of-print_operand (literal false n) rest h = refl
index_of-print_operand (name true t) rest h = refl
index_of-print_operand (name false t) rest h = rw (h.0, h.1) refl
index_of-print_operand (parenthesized s indexed) rest h = refl

index_of-print_operands :
    (s : Spelled) (us : List Spelled) (register : IndexRegister) (rest : List Token)
    → IsNoRegister s
    → index_of (print_operands s us register rest) ≡ none
index_of-print_operands s [] register rest h = index_of-print_operand s _ h
index_of-print_operands s (u ∷ us) register rest h = index_of-print_operand s _ h

pub without_comma :
    {A : Type 0} (comma : Bool) (stop more : A)
    → comma ≡ false
    → elim comma [ false ↦ stop | true ↦ more ] ≡ stop
without_comma false stop more h = refl
without_comma true stop more h = cc

without_register :
    {A : Type 0} (register : Option IndexRegister) (last : IndexRegister → A) (more : A)
    → register ≡ none
    → elim register [ some r ↦ last r | none ↦ more ] ≡ more
without_register none last more h = refl
without_register (some r) last more h = cc

instruction_operands-print_operands :
    (fuel : ℕ) (s : Spelled) (us : List Spelled) (register : IndexRegister) (rest : List Token)
    → length us < fuel
    → AreSpelled s us
    → check Lexer.comma rest ≡ false
    → instruction_operands fuel (print_operands s us register rest)
      ≡ ok (operands_of s us register, rest)
unfolding instruction_operands
instruction_operands-print_operands zero s us register rest h g c = absurd (omega arith)
instruction_operands-print_operands (suc fuel) s [] no_index rest h g c =
    rw (parse_operand-print_operand s rest g) (without_comma (check Lexer.comma rest) _ _ c)
instruction_operands-print_operands (suc fuel) s [] index_x rest h g c =
    rw (parse_operand-print_operand s (print_index index_x rest) g) refl
instruction_operands-print_operands (suc fuel) s [] index_y rest h g c =
    rw (parse_operand-print_operand s (print_index index_y rest) g) refl
instruction_operands-print_operands (suc fuel) s (u ∷ us) register rest h g c =
    let later = print_operands u us register rest in
    rw (parse_operand-print_operand s (token Lexer.comma (b',' ∷ []) none ∷ later) g.0) (
      without_register (index_of later) _ _ (index_of-print_operands u us register rest g.1)
      ∙ ap (with_operand (operand_of s))
          (instruction_operands-print_operands fuel u us register rest (omega (arith, h)) g.2 c))

print_operand-length :
    (s : Spelled) (rest : List Token) → length rest < length (print_operand s rest)
print_operand-length (literal true n) rest = omega arith
print_operand-length (literal false n) rest = omega arith
print_operand-length (name true t) rest = omega arith
print_operand-length (name false t) rest = omega arith
print_operand-length (parenthesized s true) rest =
    let ih = print_operand-length s (close true rest) in omega (arith, ih)
print_operand-length (parenthesized s false) rest =
    let ih = print_operand-length s (close false rest) in omega (arith, ih)

print_index-length :
    (register : IndexRegister) (rest : List Token)
    → length rest ≤ length (print_index register rest)
print_index-length no_index rest = omega arith
print_index-length index_x rest = omega arith
print_index-length index_y rest = omega arith

pub print_operands-length :
    (s : Spelled) (us : List Spelled) (register : IndexRegister) (rest : List Token)
    → length us + length rest < length (print_operands s us register rest)
print_operands-length s [] register rest =
    omega
      (arith, print_operand-length s (print_index register rest), print_index-length register rest)
print_operands-length s (u ∷ us) register rest = omega (
  arith,
  print_operands-length u us register rest,
  print_operand-length s (token Lexer.comma (b',' ∷ []) none ∷ print_operands u us register rest),
)

at_line_end-print_operand :
    (s : Spelled) (rest : List Token) → at_line_end (print_operand s rest) ≡ false
at_line_end-print_operand (literal true n) rest = refl
at_line_end-print_operand (literal false n) rest = refl
at_line_end-print_operand (name true t) rest = refl
at_line_end-print_operand (name false t) rest = refl
at_line_end-print_operand (parenthesized s indexed) rest = refl

at_line_end-print_operands :
    (s : Spelled) (us : List Spelled) (register : IndexRegister) (rest : List Token)
    → at_line_end (print_operands s us register rest) ≡ false
at_line_end-print_operands s [] register rest = at_line_end-print_operand s _
at_line_end-print_operands s (u ∷ us) register rest = at_line_end-print_operand s _

-- An instruction of at least one operand.
abbrev pub print_instruction :
    Text → Spelled → List Spelled → IndexRegister → List Token → List Token
print_instruction mnemonic s us register rest =
    token Lexer.identifier mnemonic none ∷ print_operands s us register rest

-- An instruction that is printed with its operands and an index register, or none, behind the last of
-- them, parses back to the operands it was printed from and leaves the tokens behind it.
pub parse_instruction-print_instruction :
    (mnemonic : Text) (s : Spelled) (us : List Spelled) (register : IndexRegister)
    (rest : List Token)
    → AreSpelled s us
    → check Lexer.comma rest ≡ false
    → parse_instruction (print_instruction mnemonic s us register rest)
      ≡ ok (instruction_stmt mnemonic (operands_of s us register), rest)
unfolding parse_instruction consume
parse_instruction-print_instruction mnemonic s us register rest g c =
    let line = print_operands s us register rest in
    rw
      (
        at_line_end-print_operands s us register rest,
        instruction_operands-print_operands (suc (length line)) s us register rest
            (omega (arith, print_operands-length s us register rest)) g c,
      )
      refl

abbrev pub AllSpelled : Spelled → List Spelled → Type 0
AllSpelled s [] = IsSpelled s
AllSpelled s (u ∷ us) = IsSpelled s × AllSpelled u us

directive_operands-print_operands :
    (fuel : ℕ) (s : Spelled) (us : List Spelled) (rest : List Token)
    → length us < fuel
    → AllSpelled s us
    → check Lexer.comma rest ≡ false
    → directive_operands fuel (print_operands s us no_index rest)
      ≡ ok (operands_of s us no_index, rest)
unfolding directive_operands
directive_operands-print_operands zero s us rest h g c = absurd (omega arith)
directive_operands-print_operands (suc fuel) s [] rest h g c =
    rw (parse_operand-print_operand s rest g) (without_comma (check Lexer.comma rest) _ _ c)
directive_operands-print_operands (suc fuel) s (u ∷ us) rest h g c =
    let later = print_operands u us no_index rest in
    rw (parse_operand-print_operand s (token Lexer.comma (b',' ∷ []) none ∷ later) g.0) (
      ap (with_operand (operand_of s))
        (directive_operands-print_operands fuel u us rest (omega (arith, h)) g.1 c))

pub parse_operands-print_operands :
    (type : DirectiveType) (s : Spelled) (us : List Spelled) (rest : List Token)
    → AllSpelled s us
    → check Lexer.comma rest ≡ false
    → parse_operands type (print_operands s us no_index rest)
      ≡ ok (directive_stmt type (operands_of s us no_index) [], rest)
unfolding parse_operands
parse_operands-print_operands type s us rest g c =
    let line = print_operands s us no_index rest in
    rw
      (
        at_line_end-print_operands s us no_index rest,
        directive_operands-print_operands (suc (length line)) s us rest
            (omega (arith, print_operands-length s us no_index rest)) g c,
      )
      refl
