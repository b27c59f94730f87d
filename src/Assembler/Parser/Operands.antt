-- ===== src/Assembler/Parser/Operands.antt =====
-- The tokens that an operand leaves: ParseOperand of assembler/src/parser.cpp.
use irata.Prelude.{
  ℕ, suc, ◌+◌, ◌-◌, ◌≤◌, ◌≡◌, refl, Bool, true, false, List, [], ◌∷◌, length, ◌==◌, if◌then◌else◌,
  if_both, Result, ok, err, ◌>>=◌, ◌>>◌, throw_if, arith, Bool-cases, inl, inr,
}
use irata.Assembler.Lexer
use irata.Assembler.Lexer.{Token, TokenKind, LexError, lex, peek}
use irata.Assembler.{number, label, no_index, index_x, Operand}
use irata.Assembler.Parser.{
  ParseError, out_of_fuel, expected_operand, check, value_or, rank, advance, consume,
  parse_immediate, parse_inner_index, parse_indirect, parse_operand,
}

abbrev pub is_fuel : ParseError → Bool
is_fuel out_of_fuel = true
is_fuel _ = false

-- An error of the code, or a value with at most `n` tokens behind it.
pub data Left {A : Type 0} (n : ℕ) : Result ParseError (A × List Token) → Type 0 where
  failed : (e : ParseError) → is_fuel e ≡ false → Left n (err e)
  left : (p : A × List Token) → length p.1 ≤ n → Left n (ok p)

pub Left-bind :
    {A B : Type 0} {m n : ℕ} {r : Result ParseError (A × List Token)}
    {k : A × List Token → Result ParseError (B × List Token)}
    → Left m r
    → ((p : A × List Token) → length p.1 ≤ m → Left n (k p))
    → Left n (r >>= k)
Left-bind (failed e h) f = failed e h
Left-bind (left p h) f = f p h

Left-guard :
    {A : Type 0} {n : ℕ} (b : Bool) (e : ParseError) {k : Result ParseError (A × List Token)}
    → is_fuel e ≡ false
    → Left n k
    → Left n (throw_if b e >> k)
Left-guard true e h f = failed e h
Left-guard false e h f = f

pub Left-le :
    {A : Type 0} (m n : ℕ) {r : Result ParseError (A × List Token)} → m ≤ n → Left m r → Left n r
Left-le m n h (failed e g) = failed e g
Left-le m n h (left p g) = left p (omega (arith, h, g))

pub Left-if :
    {A : Type 0} {n : ℕ} (b : Bool) {yes no : Result ParseError (A × List Token)}
    → Left n yes
    → Left n no
    → Left n (if b then yes else no)
Left-if true y z = y
Left-if false y z = z

pub advance-le : (ts : List Token) → length (advance ts) ≤ length ts
advance-le [] = omega arith
advance-le (t ∷ ts) =
    if_both (λ (us : List Token). length us ≤ suc (length ts))
      (rank t.kind == rank Lexer.end_of_file) (omega arith) (omega arith)

-- `Advance` passes a token of another kind than the end.
pub advance-lt :
    (k : TokenKind) (ts : List Token)
    → (rank k == 10) ≡ false
    → check k ts ≡ true
    → length (advance ts) + 1 ≤ length ts
advance-lt k [] other h = absurd (clash other h)
  where
    clash : (rank k == 10) ≡ false → (10 == rank k) ≡ true → ⊥
    clash p q = ground (arith, p, q)
advance-lt k (t ∷ ts) other h =
    let inside : (rank t.kind == 10) ≡ false = ground (arith, other, h) in rw inside (omega arith)

pub consume-Left :
    (k : TokenKind) (ts : List Token) → (rank k == 10) ≡ false → Left (length ts - 1) (consume k ts)
unfolding consume
consume-Left k [] other = failed _ refl
consume-Left k (t ∷ ts) other = elim (Bool-cases (check k (t ∷ ts))) [
  | inl here ↦
      let inside : (rank t.kind == 10) ≡ false = ground (arith, other, here) in
      rw (here, inside) (left _ (omega arith))
  | inr away ↦ rw away (failed _ refl)
]

parse_immediate-Left : (ts : List Token) → Left (length ts) (parse_immediate ts)
unfolding parse_immediate
parse_immediate-Left [] = failed _ refl
parse_immediate-Left (t ∷ ts) = Left-guard _ _ refl (left _ (advance-le (t ∷ ts)))

parse_inner_index-Left :
    (operand : Operand) (ts : List Token) → Left (length ts) (parse_inner_index operand ts)
unfolding parse_inner_index
parse_inner_index-Left operand ts = Left-bind (consume-Left Lexer.identifier ts refl) (λ p h.
    Left-guard _ _ refl
      (left (record operand { index_register = index_x }, p.1) (omega (arith, h))))

parse_indirect-Left :
    (inner : Operand) (ts : List Token) → Left (length ts) (parse_indirect inner ts)
unfolding parse_indirect
parse_indirect-Left inner ts = Left-guard _ _ refl (
    Left-bind {m = length ts}
      (Left-if (check Lexer.comma ts)
        (Left-le (length (advance ts)) (length ts) (advance-le ts)
          (parse_inner_index-Left (record inner { indirect = true }) (advance ts)))
        (left (record inner { indirect = true }, ts) (omega arith)))
      (λ p h.
        Left-bind (consume-Left Lexer.right_paren p.1 refl)
          (λ q g. left (p.0, q.1) (omega (arith, h, g)))))

pub parse_operand-Left : (ts : List Token) → Left (length ts - 1) (parse_operand ts)
unfolding parse_operand
parse_operand-Left [] = failed _ refl
parse_operand-Left (t ∷ ts) =
    Left-le (length ts) (suc (length ts) - 1) (omega arith) (at t.kind (parse_operand-Left ts))
  where
    at :
        (k : TokenKind)
        → Left (length ts - 1) (parse_operand ts)
        → Left {A = Operand} (length ts) (elim k [
          | Lexer.hash ↦ parse_immediate ts
          | Lexer.left_paren ↦ parse_operand ts >>= λ inner. parse_indirect inner.0 inner.1
          | Lexer.number ↦ ok (
            record {
              value = number (value_or 0 t.number);
              immediate = peek t.text == b'#';
              indirect = false;
              index_register = no_index;
            },
            ts,
          )
          | Lexer.identifier ↦ ok (
            record {
              value = label t.text;
              immediate = false;
              indirect = false;
              index_register = no_index;
            },
            ts,
          )
          | _ ↦ err expected_operand
        ])
    at Lexer.hash ih = parse_immediate-Left ts
    at Lexer.left_paren ih =
        Left-bind ih
          (λ p h. Left-le (length p.1) (length ts) (omega (arith, h)) (parse_indirect-Left p.0 p.1))
    at Lexer.number ih = left _ (omega arith)
    at Lexer.identifier ih = left _ (omega arith)
    at Lexer.directive ih = failed _ refl
    at Lexer.string ih = failed _ refl
    at Lexer.comma ih = failed _ refl
    at Lexer.right_paren ih = failed _ refl
    at Lexer.colon ih = failed _ refl
    at Lexer.newline ih = failed _ refl
    at Lexer.end_of_file ih = failed _ refl
