-- ===== src/Assembler/Parser/Program.antt =====
-- Programs that are printed as tokens and parsed again: Parse and ParseDirective of
-- assembler/src/parser.cpp.
use irata.Prelude.{
  Text, ℕ, zero, suc, ◌<◌, ◌≡◌, refl, ap, ◌∙◌, true, false, not, none, some, List, [], ◌∷◌, ◌++◌,
  length, null, Result, ok, ◌>>=◌, arith, map,
}
use irata.Assembler.Lexer
use irata.Assembler.Lexer.{Token, TokenKind, peek}
use irata.Assembler.{
  no_index, instruction_stmt, IndexRegister, Statement, label_decl, equ_decl, directive_stmt, org,
  byte, include,
}
use irata.Assembler.Parser.{
  ParseError, consume, consume_newlines, take_labels, parse_line, parse_directive, parse_equ,
  parse_include, end_line, parse_from, parse, check, advance, with_statements, parse_instruction,
  ParsedStatement, Statements, equ_name, org_name, byte_name, include_name,
}
use irata.Assembler.Parser.Printed.{Spelled, literal, name, parenthesized, token, print_operand}
use irata.Assembler.Parser.RoundTrip.{
  print_operands, print_operands-length, AreSpelled, operands_of, print_instruction, AllSpelled,
  parse_operands-print_operands, parse_instruction-print_instruction,
}

-- A line as a source spells it.
pub data Line : Type 0 where
  label_line : Text → Line
  plain_line : (mnemonic : Text) → Line
  instruction_line : (mnemonic : Text) → Spelled → List Spelled → IndexRegister → Line
  equ_line : Text → ℕ → Line
  include_line : (path : Text) → Line
  org_line byte_line : Spelled → List Spelled → Line

abbrev pub statement_of : Line → Statement
statement_of (label_line t) = label_decl t
statement_of (plain_line m) = instruction_stmt m []
statement_of (instruction_line m s us register) = instruction_stmt m (operands_of s us register)
statement_of (equ_line t n) = equ_decl t n
statement_of (include_line path) = directive_stmt include [] path
statement_of (org_line s us) = directive_stmt org (operands_of s us no_index) []
statement_of (byte_line s us) = directive_stmt byte (operands_of s us no_index) []

abbrev pub IsLine : Line → Type 0
IsLine (instruction_line m s us register) = AreSpelled s us
IsLine (org_line s us) = AllSpelled s us
IsLine (byte_line s us) = AllSpelled s us
IsLine line = Unit

abbrev newline : List Token → List Token
newline rest = token Lexer.newline (b'\n' ∷ []) none ∷ rest

abbrev pub print_line : Line → List Token → List Token
print_line (label_line t) rest =
    token Lexer.identifier t none ∷ token Lexer.colon (b':' ∷ []) none ∷ newline rest
print_line (plain_line m) rest = token Lexer.identifier m none ∷ newline rest
print_line (instruction_line m s us register) rest =
    print_instruction m s us register (newline rest)
print_line (equ_line t n) rest =
    token Lexer.directive equ_name none
    ∷ token Lexer.identifier t none
    ∷ token Lexer.comma (b',' ∷ []) none
    ∷ token Lexer.number (b'0' ∷ []) (some n)
    ∷ newline rest
print_line (include_line path) rest =
    token Lexer.directive include_name none
    ∷ record (token Lexer.string path none) { string_value = some path }
    ∷ newline rest
print_line (org_line s us) rest =
    token Lexer.directive org_name none ∷ print_operands s us no_index (newline rest)
print_line (byte_line s us) rest =
    token Lexer.directive byte_name none ∷ print_operands s us no_index (newline rest)

abbrev pub print_program : List Line → List Token
print_program [] = token Lexer.end_of_file [] none ∷ []
print_program (line ∷ lines) = print_line line (print_program lines)

abbrev pub AreLines : List Line → Type 0
AreLines [] = Unit
AreLines (line ∷ lines) = IsLine line × AreLines lines

take_labels-print_operand :
    (m : Text) (s : Spelled) (rest : List Token)
    → take_labels (token Lexer.identifier m none ∷ print_operand s rest)
      ≡ ([], token Lexer.identifier m none ∷ print_operand s rest)
unfolding take_labels
take_labels-print_operand m (literal true n) rest = refl
take_labels-print_operand m (literal false n) rest = refl
take_labels-print_operand m (name true t) rest = refl
take_labels-print_operand m (name false t) rest = refl
take_labels-print_operand m (parenthesized s indexed) rest = refl

take_labels-print_instruction :
    (m : Text) (s : Spelled) (us : List Spelled) (register : IndexRegister) (rest : List Token)
    → take_labels (print_instruction m s us register rest)
      ≡ ([], print_instruction m s us register rest)
take_labels-print_instruction m s [] register rest = take_labels-print_operand m s _
take_labels-print_instruction m s (u ∷ us) register rest = take_labels-print_operand m s _

take_labels-directive :
    (t : Text) (ts : List Token)
    → take_labels (token Lexer.directive t none ∷ ts) ≡ ([], token Lexer.directive t none ∷ ts)
unfolding take_labels
take_labels-directive t [] = refl
take_labels-directive t (u ∷ ts) = refl

abbrev parsed : ParsedStatement → Result ParseError (List Statement × List Token)
parsed r = r >>= λ p. ok (p.0 ∷ [], p.1)

-- A round of the loop behind the line's labels, and behind its statement.
abbrev behind_statement : ℕ → Result ParseError (List Statement × List Token) → Statements
unfolding parse_from end_line
behind_statement fuel r =
    (r >>= λ line. elim (null line.0) [
      | true ↦ with_statements [] (parse_from fuel line.1)
      | false ↦ end_line line.1 >>= λ next. with_statements ([] ++ line.0) (parse_from fuel next)
    ])

abbrev behind_labels : ℕ → List Statement × List Token → Statements
unfolding parse_from parse_line end_line
behind_labels fuel labels = elim (check Lexer.newline labels.1) [
  | true ↦ with_statements labels.0 (parse_from fuel (advance labels.1))
  | false ↦ parse_line (not (null labels.0)) labels.1 >>= λ line. elim (null line.0) [
    | true ↦ with_statements labels.0 (parse_from fuel line.1)
    | false ↦
        end_line line.1 >>= λ next. with_statements (labels.0 ++ line.0) (parse_from fuel next)
  ]
]

parse_from-print_line :
    (fuel : ℕ) (line : Line) (rest : List Token)
    → IsLine line
    → parse_from (suc fuel) (print_line line rest)
      ≡ with_statements (statement_of line ∷ []) (parse_from fuel rest)
unfolding parse_from consume_newlines take_labels parse_line parse_directive parse_equ parse_include
    parse_instruction consume end_line
parse_from-print_line fuel (label_line t) rest h = refl
parse_from-print_line fuel (plain_line m) rest h = refl
parse_from-print_line fuel (equ_line t n) rest h = refl
parse_from-print_line fuel (include_line path) rest h = refl
parse_from-print_line fuel (instruction_line m s us register) rest h =
    let line = print_instruction m s us register (newline rest) in
    ap (behind_labels fuel) (take_labels-print_instruction m s us register (newline rest))
    ∙ ap (behind_statement fuel)
        (ap parsed (parse_instruction-print_instruction m s us register (newline rest) h refl))
parse_from-print_line fuel (org_line s us) rest h =
    ap (behind_labels fuel)
      (take_labels-directive org_name (print_operands s us no_index (newline rest)))
    ∙ ap (λ (r : ParsedStatement). behind_statement fuel (parsed r))
        (parse_operands-print_operands org s us (newline rest) h refl)
parse_from-print_line fuel (byte_line s us) rest h =
    ap (behind_labels fuel)
      (take_labels-directive byte_name (print_operands s us no_index (newline rest)))
    ∙ ap (λ (r : ParsedStatement). behind_statement fuel (parsed r))
        (parse_operands-print_operands byte s us (newline rest) h refl)

parse_from-end : (fuel : ℕ) → parse_from (suc fuel) (token Lexer.end_of_file [] none ∷ []) ≡ ok []
unfolding parse_from consume_newlines take_labels
parse_from-end fuel = refl

print_line-length : (line : Line) (rest : List Token) → length rest < length (print_line line rest)
print_line-length (label_line t) rest = omega arith
print_line-length (plain_line m) rest = omega arith
print_line-length (equ_line t n) rest = omega arith
print_line-length (include_line path) rest = omega arith
print_line-length (instruction_line m s us register) rest =
    omega (arith, print_operands-length s us register (newline rest))
print_line-length (org_line s us) rest =
    omega (arith, print_operands-length s us no_index (newline rest))
print_line-length (byte_line s us) rest =
    omega (arith, print_operands-length s us no_index (newline rest))

print_program-length : (lines : List Line) → length lines < length (print_program lines)
print_program-length [] = omega arith
print_program-length (line ∷ lines) =
    omega (arith, print_program-length lines, print_line-length line (print_program lines))

parse_from-print_program :
    (fuel : ℕ) (lines : List Line)
    → length lines < fuel
    → AreLines lines
    → parse_from fuel (print_program lines) ≡ ok (map statement_of lines)
parse_from-print_program zero lines h g = absurd (omega arith)
parse_from-print_program (suc fuel) [] h g = parse_from-end fuel
parse_from-print_program (suc fuel) (line ∷ lines) h g =
    parse_from-print_line fuel line (print_program lines) g.0
    ∙ ap (with_statements (statement_of line ∷ []))
        (parse_from-print_program fuel lines (omega (arith, h)) g.1)

-- A program of labels, instructions, constants and directives that is printed as tokens, each
-- statement on a line of its own and an index register in lower case, parses back to its statements,
-- where no immediate operand stands in parentheses and no name behind an instruction's comma is an
-- index register.
pub parse-print_program :
    (lines : List Line) → AreLines lines → parse (print_program lines) ≡ ok (map statement_of lines)
unfolding parse
parse-print_program lines h =
    parse_from-print_program (suc (length (print_program lines))) lines
      (omega (arith, print_program-length lines)) h
