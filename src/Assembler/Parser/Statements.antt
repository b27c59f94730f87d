-- ===== src/Assembler/Parser/Statements.antt =====
-- The tokens that an instruction and a directive leave: ParseInstruction and ParseDirective of
-- assembler/src/parser.cpp.
use irata.Prelude.{
  ℕ, zero, suc, ◌+◌, ◌-◌, ◌≤◌, ◌<◌, ◌≡◌, refl, Bool, true, false, Option, none, some, List, [], ◌∷◌,
  length, ok, arith,
}
use irata.Assembler.Lexer
use irata.Assembler.Lexer.{Token, TokenKind, LexError, lex, peek}
use irata.Assembler.{
  Operand, instruction_stmt, directive_stmt, equ_decl, org, byte, include, IndexRegister,
  DirectiveType,
}
use irata.Assembler.Parser.Operands.{
  Left, failed, left, Left-bind, Left-le, Left-if, advance-le, advance-lt, consume-Left,
  parse_operand-Left,
}
use irata.Assembler.Parser.{
  check, value_or, text_or, advance, index_of, Operands, with_operand, instruction_operands,
  directive_operands, parse_instruction, parse_equ, parse_include, parse_operands, parse_directive,
}

with_operand-Left :
    (n : ℕ) (operand : Operand) {r : Operands} → Left n r → Left n (with_operand operand r)
with_operand-Left n operand (failed e h) = failed e h
with_operand-Left n operand (left p h) = left (operand ∷ p.0, p.1) h

-- Behind a comma there are fewer tokens.
comma-lt : (ts : List Token) → check Lexer.comma ts ≡ true → length (advance ts) + 1 ≤ length ts
comma-lt ts h = advance-lt Lexer.comma ts refl h

instruction_operands-Left :
    (fuel : ℕ) (ts : List Token)
    → length ts < fuel
    → Left (length ts) (instruction_operands fuel ts)
unfolding instruction_operands
instruction_operands-Left zero ts h = absurd (omega arith)
instruction_operands-Left (suc fuel) ts h =
    Left-bind (parse_operand-Left ts)
      (λ p g. behind p g (check Lexer.comma p.1) refl (λ us. instruction_operands-Left fuel us))
  where
    more :
        (p : Operand × List Token)
        → length p.1 ≤ length ts - 1
        → length (advance p.1) + 1 ≤ length p.1
        → ((us : List Token) → length us < fuel → Left (length us) (instruction_operands fuel us))
        → (o : Option IndexRegister)
        → Left {A = List Operand} (length ts) (elim o [
          | some register ↦
              ok (record (p.0) { index_register = register } ∷ [], advance (advance p.1))
          | none ↦ with_operand p.0 (instruction_operands fuel (advance p.1))
        ])
    more p g fewer ih (some register) = left _ (omega (arith, g, fewer, advance-le (advance p.1)))
    more p g fewer ih none = Left-le (length (advance p.1)) (length ts) (omega (arith, g, fewer)) (
        with_operand-Left (length (advance p.1)) p.0
          (ih (advance p.1) (omega (arith, g, fewer, h))))

    behind :
        (p : Operand × List Token)
        → length p.1 ≤ length ts - 1
        → (b : Bool) → check Lexer.comma p.1 ≡ b
        → ((us : List Token) → length us < fuel → Left (length us) (instruction_operands fuel us))
        → Left {A = List Operand} (length ts) (elim b [
          | false ↦ ok (p.0 ∷ [], p.1)
          | true ↦ elim (index_of (advance p.1)) [
            | some register ↦
                ok (record (p.0) { index_register = register } ∷ [], advance (advance p.1))
            | none ↦ with_operand p.0 (instruction_operands fuel (advance p.1))
          ]
        ])
    behind p g false e ih = left _ (omega (arith, g))
    behind p g true e ih = more p g (comma-lt p.1 e) ih (index_of (advance p.1))

directive_operands-Left :
    (fuel : ℕ) (ts : List Token) → length ts < fuel → Left (length ts) (directive_operands fuel ts)
unfolding directive_operands
directive_operands-Left zero ts h = absurd (omega arith)
directive_operands-Left (suc fuel) ts h =
    Left-bind (parse_operand-Left ts)
      (λ p g. behind p g (check Lexer.comma p.1) refl (λ us. directive_operands-Left fuel us))
  where
    behind :
        (p : Operand × List Token)
        → length p.1 ≤ length ts - 1
        → (b : Bool) → check Lexer.comma p.1 ≡ b
        → ((us : List Token) → length us < fuel → Left (length us) (directive_operands fuel us))
        → Left {A = List Operand} (length ts) (elim b [
          | false ↦ ok (p.0 ∷ [], p.1)
          | true ↦ with_operand p.0 (directive_operands fuel (advance p.1))
        ])
    behind p g false e ih = left _ (omega (arith, g))
    behind p g true e ih =
        let fewer = comma-lt p.1 e in
        Left-le (length (advance p.1)) (length ts) (omega (arith, g, fewer)) (
          with_operand-Left (length (advance p.1)) p.0
            (ih (advance p.1) (omega (arith, g, fewer, h))))

pub parse_instruction-Left : (ts : List Token) → Left (length ts - 1) (parse_instruction ts)
unfolding parse_instruction
parse_instruction-Left ts = Left-bind (consume-Left Lexer.identifier ts refl) (λ p h.
    Left-if _ (left _ h) (
      Left-bind (instruction_operands-Left (suc (length p.1)) p.1 (omega arith))
        (λ q g. left (instruction_stmt p.0.text q.0, q.1) (omega (arith, h, g)))))

parse_operands-Left :
    (type : DirectiveType) (ts : List Token) → Left (length ts) (parse_operands type ts)
unfolding parse_operands
parse_operands-Left type ts = Left-if _ (left _ (omega arith)) (
    Left-bind (directive_operands-Left (suc (length ts)) ts (omega arith))
      (λ q g. left (directive_stmt type q.0 [], q.1) g))

parse_equ-Left : (ts : List Token) → Left (length ts) (parse_equ ts)
unfolding parse_equ
parse_equ-Left ts = Left-bind (consume-Left Lexer.identifier ts refl) (λ p h.
    Left-bind (consume-Left Lexer.comma p.1 refl) (λ q g.
      Left-bind (consume-Left Lexer.number q.1 refl)
        (λ r f. left (equ_decl p.0.text (value_or 0 r.0.number), r.1) (omega (arith, h, g, f)))))

parse_include-Left : (ts : List Token) → Left (length ts) (parse_include ts)
unfolding parse_include
parse_include-Left ts =
    Left-bind (consume-Left Lexer.string ts refl) (λ p h.
      left (directive_stmt include [] (text_or [] p.0.string_value), p.1) (omega (arith, h)))

pub parse_directive-Left : (ts : List Token) → Left (length ts - 1) (parse_directive ts)
unfolding parse_directive
parse_directive-Left ts = Left-bind (consume-Left Lexer.directive ts refl) (λ p h.
    Left-if _ (Left-le (length p.1) _ h (parse_equ-Left p.1)) (
      Left-if _ (Left-le (length p.1) _ h (parse_operands-Left org p.1)) (
        Left-if _ (Left-le (length p.1) _ h (parse_operands-Left byte p.1))
          (Left-if _ (Left-le (length p.1) _ h (parse_include-Left p.1)) (failed _ refl)))))
