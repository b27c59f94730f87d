-- ===== src/Assembler/Parser/Printed.antt =====
-- Operands and instructions that are printed as tokens and parsed again: ParseOperand and
-- ParseInstruction of assembler/src/parser.cpp.
use irata.Prelude.{
  Text, ℕ, ◌≡◌, refl, ap, ◌∙◌, Bool, true, false, Option, none, some, List, [], ◌∷◌, Result, ok,
  ◌>>=◌, ◌>>◌, throw_if,
}
use irata.Assembler.Lexer
use irata.Assembler.Lexer.{Token, TokenKind, peek}
use irata.Assembler.{number, label, no_index, index_x, Operand}
use irata.Assembler.Parser.{
  ParseError, ParsedOperand, consume, parse_immediate, parse_inner_index, parse_indirect,
  parse_operand,
}

-- An operand as a source spells it.
pub data Spelled : Type 0 where
  literal : (immediate : Bool) → ℕ → Spelled
  name : (immediate : Bool) → Text → Spelled
  parenthesized : Spelled → (indexed : Bool) → Spelled

abbrev enclosed : Bool → Operand → Operand
enclosed true o = record o { indirect = true; index_register = index_x }
enclosed false o = record o { indirect = true }

abbrev pub operand_of : Spelled → Operand
operand_of (literal immediate n) = record {
  value = number n;
  immediate = immediate;
  indirect = false;
  index_register = no_index;
}
operand_of (name immediate t) = record {
  value = label t;
  immediate = immediate;
  indirect = false;
  index_register = no_index;
}
operand_of (parenthesized s indexed) = enclosed indexed (operand_of s)

-- No immediate operand stands in parentheses.
abbrev pub IsSpelled : Spelled → Type 0
IsSpelled (literal immediate n) = Unit
IsSpelled (name immediate t) = Unit
IsSpelled (parenthesized s indexed) = IsSpelled s × ((operand_of s).immediate ≡ false)

abbrev pub token : TokenKind → Text → Option ℕ → Token
token kind text value = record {
  kind = kind;
  text = text;
  line = 1;
  column = 1;
  span_length = 0;
  number = value;
  string_value = none;
}

abbrev pub close : Bool → List Token → List Token
close true rest =
    token Lexer.comma (b',' ∷ []) none
    ∷ token Lexer.identifier (b'x' ∷ []) none
    ∷ token Lexer.right_paren (b')' ∷ []) none
    ∷ rest
close false rest = token Lexer.right_paren (b')' ∷ []) none ∷ rest

-- The tokens of an operand, with others behind it. Of a number's text the parser reads the first
-- character alone.
abbrev pub print_operand : Spelled → List Token → List Token
print_operand (literal true n) rest = token Lexer.number (b'#' ∷ b'0' ∷ []) (some n) ∷ rest
print_operand (literal false n) rest = token Lexer.number (b'0' ∷ []) (some n) ∷ rest
print_operand (name true t) rest =
    token Lexer.hash (b'#' ∷ []) none ∷ token Lexer.identifier t none ∷ rest
print_operand (name false t) rest = token Lexer.identifier t none ∷ rest
print_operand (parenthesized s indexed) rest =
    token Lexer.left_paren (b'(' ∷ []) none ∷ print_operand s (close indexed rest)

guard_open :
    {A : Type 0} (b : Bool) (e : ParseError) (k : Result ParseError A)
    → b ≡ false
    → (throw_if b e >> k) ≡ k
guard_open true e k h = cc
guard_open false e k h = refl

parse_indirect-close :
    (o : Operand) (indexed : Bool) (rest : List Token)
    → o.immediate ≡ false
    → parse_indirect o (close indexed rest) ≡ ok (enclosed indexed o, rest)
unfolding parse_indirect consume parse_inner_index
parse_indirect-close o true rest h = guard_open o.immediate _ _ h
parse_indirect-close o false rest h = guard_open o.immediate _ _ h

pub parse_operand-print_operand :
    (s : Spelled) (rest : List Token)
    → IsSpelled s
    → parse_operand (print_operand s rest) ≡ ok (operand_of s, rest)
unfolding parse_operand parse_immediate
parse_operand-print_operand (literal true n) rest h = refl
parse_operand-print_operand (literal false n) rest h = refl
parse_operand-print_operand (name true t) rest h = refl
parse_operand-print_operand (name false t) rest h = refl
parse_operand-print_operand (parenthesized s indexed) rest h =
    ap (λ (r : ParsedOperand). r >>= λ inner. parse_indirect inner.0 inner.1)
      (parse_operand-print_operand s (close indexed rest) h.0)
    ∙ parse_indirect-close (operand_of s) indexed rest h.1
