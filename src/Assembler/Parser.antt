-- ===== src/Assembler/Parser.antt =====
-- The parser: assembler/src/parser.cpp. Its state is the list of the tokens from `index_` on, which the
-- lexer has ended with an end of file, so that no call goes beyond the list.
pub mod Operands
pub mod Statements
pub mod Ends
pub mod Printed
pub mod RoundTrip
pub mod Program
use irata.Prelude.{
  Text, same_text, ℕ, zero, suc, Bool, true, false, not, ◌&&◌, ◌||◌, Option, none, some, List, [],
  ◌∷◌, ◌++◌, length, null, ◌==◌, if◌then◌else◌, Result, ok, err, ◌>>=◌, ◌>>◌, throw_if,
}
use irata.Assembler.Lexer
use irata.Assembler.Lexer.{Token, TokenKind, peek}
use irata.Assembler.{
  IndexRegister, no_index, index_x, index_y, Operand, number, label, DirectiveType, org, byte,
  include, Statement, label_decl, equ_decl, instruction_stmt, directive_stmt,
}

-- The `AssemblerError`s of the parser, and `out_of_fuel`, which is the model's.
pub data ParseError : Type 0 where
  expected_statement expected_end_of_line expected_token expected_index_register : ParseError
  expected_immediate_name immediate_indirect expected_operand unknown_directive : ParseError
  out_of_fuel : ParseError

-- A kind's place in the enumeration, which a comparison of two kinds reads.
abbrev pub rank : TokenKind → ℕ
rank Lexer.identifier = 0
rank Lexer.number = 1
rank Lexer.directive = 2
rank Lexer.string = 3
rank Lexer.comma = 4
rank Lexer.left_paren = 5
rank Lexer.right_paren = 6
rank Lexer.colon = 7
rank Lexer.hash = 8
rank Lexer.newline = 9
rank Lexer.end_of_file = 10

-- `Peek().kind`
abbrev pub kind : List Token → TokenKind
kind [] = Lexer.end_of_file
kind (t ∷ ts) = t.kind

-- `Check`
abbrev pub check : TokenKind → List Token → Bool
check k ts = rank (kind ts) == rank k

-- `Advance`, which stays at the end of the file.
abbrev pub advance : List Token → List Token
advance [] = []
advance (t ∷ ts) = if rank t.kind == rank Lexer.end_of_file then t ∷ ts else ts

-- `Consume`
unfoldable pub consume : TokenKind → List Token → Result ParseError (Token × List Token)
consume k [] = err expected_token
consume k (t ∷ ts) = throw_if (not (check k (t ∷ ts))) expected_token >> ok (t, advance (t ∷ ts))

abbrev pub value_or : ℕ → Option ℕ → ℕ
value_or d none = d
value_or d (some n) = n

abbrev pub text_or : Text → Option Text → Text
text_or d none = d
text_or d (some t) = t

abbrev pub is_x : Text → Bool
is_x t = same_text t (b'X' ∷ []) || same_text t (b'x' ∷ [])

abbrev pub is_y : Text → Bool
is_y t = same_text t (b'Y' ∷ []) || same_text t (b'y' ∷ [])

abbrev pub ParsedOperand : Type 0
ParsedOperand = Result ParseError (Operand × List Token)

-- `ParseOperand` behind the hash.
unfoldable pub parse_immediate : List Token → ParsedOperand
parse_immediate [] = err expected_immediate_name
parse_immediate (t ∷ ts) =
    throw_if (not (check Lexer.identifier (t ∷ ts))) expected_immediate_name
    >> ok (
      record {
        value = label t.text;
        immediate = true;
        indirect = false;
        index_register = no_index;
      },
      advance (t ∷ ts),
    )

-- The index register behind a comma inside the parentheses.
unfoldable pub parse_inner_index : Operand → List Token → ParsedOperand
unfolding consume
parse_inner_index operand ts =
    (consume Lexer.identifier ts >>= λ reg.
    throw_if (not (is_x reg.0.text)) expected_index_register
    >> ok (record operand { index_register = index_x }, reg.1))

-- `ParseOperand` behind the inner operand of the parentheses.
unfoldable pub parse_indirect : Operand → List Token → ParsedOperand
unfolding consume parse_inner_index
parse_indirect inner ts =
    let operand = record inner { indirect = true } in
    throw_if inner.immediate immediate_indirect
    >> ((if check Lexer.comma ts then parse_inner_index operand (advance ts) else ok (operand, ts))
        >>= λ indexed. consume Lexer.right_paren indexed.1 >>= λ closed. ok (indexed.0, closed.1))

-- `ParseOperand`
unfoldable pub parse_operand : List Token → ParsedOperand
unfolding parse_immediate parse_indirect
parse_operand [] = err expected_operand
parse_operand (t ∷ ts) = elim t.kind [
  | Lexer.hash ↦ parse_immediate ts
  | Lexer.left_paren ↦ parse_operand ts >>= λ inner. parse_indirect inner.0 inner.1
  | Lexer.number ↦ ok (
    record {
      value = number (value_or 0 t.number);
      immediate = peek t.text == b'#';
      indirect = false;
      index_register = no_index;
    },
    ts,
  )
  | Lexer.identifier ↦ ok (
    record { value = label t.text; immediate = false; indirect = false; index_register = no_index },
    ts,
  )
  | _ ↦ err expected_operand
]

-- The index register that may follow the comma behind an operand.
abbrev pub index_of : List Token → Option IndexRegister
index_of [] = none
index_of (t ∷ ts) =
    if check Lexer.identifier (t ∷ ts)
    then (if is_x t.text then some index_x else (if is_y t.text then some index_y else none))
    else none

abbrev pub Operands : Type 0
Operands = Result ParseError (List Operand × List Token)

abbrev pub with_operand : Operand → Operands → Operands
with_operand operand (err e) = err e
with_operand operand (ok (operands, ts)) = ok (operand ∷ operands, ts)

-- The loop of `ParseInstruction`, on fuel.
unfoldable pub instruction_operands : ℕ → List Token → Operands
unfolding parse_operand
instruction_operands zero ts = err out_of_fuel
instruction_operands (suc fuel) ts =
    (parse_operand ts >>= λ parsed. elim (check Lexer.comma parsed.1) [
      | false ↦ ok (parsed.0 ∷ [], parsed.1)
      | true ↦ elim (index_of (advance parsed.1)) [
        | some register ↦
            ok (record (parsed.0) { index_register = register } ∷ [], advance (advance parsed.1))
        | none ↦ with_operand parsed.0 (instruction_operands fuel (advance parsed.1))
      ]
    ])

-- The loop of `ParseDirective`, on fuel.
unfoldable pub directive_operands : ℕ → List Token → Operands
unfolding parse_operand
directive_operands zero ts = err out_of_fuel
directive_operands (suc fuel) ts =
    (parse_operand ts >>= λ parsed. elim (check Lexer.comma parsed.1) [
      | false ↦ ok (parsed.0 ∷ [], parsed.1)
      | true ↦ with_operand parsed.0 (directive_operands fuel (advance parsed.1))
    ])

abbrev pub at_line_end : List Token → Bool
at_line_end ts = check Lexer.newline ts || check Lexer.end_of_file ts

abbrev pub ParsedStatement : Type 0
ParsedStatement = Result ParseError (Statement × List Token)

-- `ParseInstruction`, with fuel for as many operands as there are tokens.
unfoldable pub parse_instruction : List Token → ParsedStatement
unfolding consume instruction_operands
parse_instruction ts =
    (consume Lexer.identifier ts >>= λ mnemonic.
    if at_line_end mnemonic.1
    then ok (instruction_stmt mnemonic.0.text [], mnemonic.1)
    else (instruction_operands (suc (length mnemonic.1)) mnemonic.1 >>= λ operands.
        ok (instruction_stmt mnemonic.0.text operands.0, operands.1)))

abbrev pub equ_name : Text
equ_name = b'e' ∷ b'q' ∷ b'u' ∷ []

abbrev pub org_name : Text
org_name = b'o' ∷ b'r' ∷ b'g' ∷ []

abbrev pub byte_name : Text
byte_name = b'b' ∷ b'y' ∷ b't' ∷ b'e' ∷ []

abbrev pub include_name : Text
include_name = b'i' ∷ b'n' ∷ b'c' ∷ b'l' ∷ b'u' ∷ b'd' ∷ b'e' ∷ []

unfoldable pub parse_equ : List Token → ParsedStatement
unfolding consume
parse_equ ts =
    (consume Lexer.identifier ts >>= λ name. consume Lexer.comma name.1 >>= λ separator.
    consume Lexer.number separator.1 >>= λ value.
    ok (equ_decl name.0.text (value_or 0 value.0.number), value.1))

unfoldable pub parse_include : List Token → ParsedStatement
unfolding consume
parse_include ts =
    (consume Lexer.string ts >>= λ path.
    ok (directive_stmt include [] (text_or [] path.0.string_value), path.1))

-- The operands of `.org` and `.byte`.
unfoldable pub parse_operands : DirectiveType → List Token → ParsedStatement
unfolding directive_operands
parse_operands type ts =
    if at_line_end ts
    then ok (directive_stmt type [] [], ts)
    else (directive_operands (suc (length ts)) ts >>= λ operands.
        ok (directive_stmt type operands.0 [], operands.1))

-- `ParseDirective`
unfoldable pub parse_directive : List Token → ParsedStatement
unfolding consume parse_equ parse_include parse_operands
parse_directive ts =
    (consume Lexer.directive ts >>= λ directive.
    if same_text directive.0.text equ_name
    then parse_equ directive.1
    else (if same_text directive.0.text org_name
        then parse_operands org directive.1
        else (if same_text directive.0.text byte_name
            then parse_operands byte directive.1
            else (if same_text directive.0.text include_name
                then parse_include directive.1
                else err unknown_directive))))

-- `ConsumeNewlines`
unfoldable pub consume_newlines : List Token → List Token
consume_newlines [] = []
consume_newlines (t ∷ ts) =
    let rest = consume_newlines ts in if check Lexer.newline (t ∷ ts) then rest else t ∷ ts

-- The loop over the labels of a line: the labels, and the tokens behind them.
unfoldable pub take_labels : List Token → List Statement × List Token
take_labels [] = ([], [])
take_labels (t ∷ []) = ([], t ∷ [])
take_labels (t ∷ u ∷ rest) =
    let later = take_labels rest in
    if check Lexer.identifier (t ∷ u ∷ rest) && check Lexer.colon (u ∷ rest)
    then (if check Lexer.newline rest
        then (label_decl t.text ∷ [], rest)
        else (label_decl t.text ∷ later.0, later.1))
    else ([], t ∷ u ∷ rest)

abbrev pub Statements : Type 0
Statements = Result ParseError (List Statement)

abbrev pub with_statements : List Statement → Statements → Statements
with_statements found (err e) = err e
with_statements found (ok others) = ok (found ++ others)

-- What a line holds behind its labels: a statement or nothing, and the tokens behind it.
unfoldable pub parse_line : Bool → List Token → Result ParseError (List Statement × List Token)
unfolding parse_directive parse_instruction consume_newlines
parse_line labelled ts =
    if check Lexer.directive ts
    then (parse_directive ts >>= λ parsed. ok (parsed.0 ∷ [], parsed.1))
    else (if check Lexer.identifier ts
        then (parse_instruction ts >>= λ parsed. ok (parsed.0 ∷ [], parsed.1))
        else (throw_if (not labelled) expected_statement >> ok ([], consume_newlines ts)))

-- The end of the line behind a statement.
unfoldable pub end_line : List Token → Result ParseError (List Token)
end_line ts =
    if check Lexer.newline ts
    then ok (advance ts)
    else (throw_if (not (check Lexer.end_of_file ts)) expected_end_of_line >> ok ts)

-- The loop of `Parse`, on fuel.
unfoldable pub parse_from : ℕ → List Token → Statements
unfolding consume_newlines take_labels parse_line end_line
parse_from zero ts = err out_of_fuel
parse_from (suc fuel) ts =
    let lines = consume_newlines ts in
    let labels = take_labels lines in
    elim (check Lexer.end_of_file lines) [
      | true ↦ ok []
      | false ↦ elim (check Lexer.newline labels.1) [
        | true ↦ with_statements labels.0 (parse_from fuel (advance labels.1))
        | false ↦ parse_line (not (null labels.0)) labels.1 >>= λ line. elim (null line.0) [
          | true ↦ with_statements labels.0 (parse_from fuel line.1)
          | false ↦ end_line line.1 >>= λ next.
              with_statements (labels.0 ++ line.0) (parse_from fuel next)
        ]
      ]
    ]

-- `Parse`, with fuel for as many lines as there are tokens.
unfoldable pub parse : List Token → Statements
unfolding parse_from
parse ts = parse_from (suc (length ts)) ts
