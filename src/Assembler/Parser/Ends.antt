-- ===== src/Assembler/Parser/Ends.antt =====
-- The parser ends: the loop over the lines of assembler/src/parser.cpp.
use irata.Prelude.{
  ℕ, zero, suc, ◌+◌, ◌-◌, ◌≤◌, ◌<◌, ◌≡◌, ◌≢◌, refl, ap, Bool, true, false, not, List, [], ◌∷◌, ◌++◌,
  length, null, ◌==◌, if_both, Result, ok, err, ◌>>=◌, ◌>>◌, throw_if, arith,
}
use irata.Assembler.Lexer
use irata.Assembler.Lexer.{Token, TokenKind, LexError, lex, peek}
use irata.Assembler.Lexer.Progress.{if_case}
use irata.Assembler.{label_decl, Statement}
use irata.Assembler.Parser.Operands.{is_fuel, Left, failed, left, advance-le, advance-lt}
use irata.Assembler.Parser.Statements.{parse_instruction-Left, parse_directive-Left}
use irata.Assembler.Parser.{
  ParseError, out_of_fuel, expected_statement, expected_end_of_line, check, rank, advance,
  ParsedStatement, consume_newlines, take_labels, Statements, with_statements, parse_line, end_line,
  parse_from, parse,
}

-- A statement about an elimination of a test.
elim_case :
    {A : Type 0} (Q : A → Type 0) (test : Bool) {yes no : A}
    → (test ≡ true → Q yes)
    → (test ≡ false → Q no)
    → Q (elim test [ true ↦ yes | false ↦ no ])
elim_case Q true y n = y refl
elim_case Q false y n = n refl

-- What a line may leave: a statement has passed a token, and a line without one has had a label.
data LineLeft (labelled : Bool) (n : ℕ)
    : Result ParseError (List Statement × List Token) → Type 0 where
  line_failed : (e : ParseError) → is_fuel e ≡ false → LineLeft labelled n (err e)
  statement_left :
      (s : Statement) (ts : List Token) → length ts + 1 ≤ n → LineLeft labelled n (ok (s ∷ [], ts))
  labels_left :
      (ts : List Token) → labelled ≡ true → length ts ≤ n → LineLeft labelled n (ok ([], ts))

statement-LineLeft :
    (labelled : Bool) (n : ℕ) {r : ParsedStatement}
    → 1 ≤ n
    → Left (n - 1) r
    → LineLeft labelled n (r >>= λ parsed. ok (parsed.0 ∷ [], parsed.1))
statement-LineLeft labelled n h (failed e g) = line_failed e g
statement-LineLeft labelled n h (left p g) = statement_left p.0 p.1 (omega (arith, h, g))

consume_newlines-le : (ts : List Token) → length (consume_newlines ts) ≤ length ts
unfolding consume_newlines
consume_newlines-le [] = omega arith
consume_newlines-le (t ∷ ts) =
    let ih = consume_newlines-le ts in
    if_both (λ (us : List Token). length us ≤ suc (length ts)) (check Lexer.newline (t ∷ ts))
      (omega (arith, ih)) (omega arith)

check-nonempty :
    (k : TokenKind) (ts : List Token) → (rank k == 10) ≡ false → check k ts ≡ true → 1 ≤ length ts
check-nonempty k ts other h = omega (arith, advance-lt k ts other h)

parse_line-LineLeft :
    (labelled : Bool) (ts : List Token) → LineLeft labelled (length ts) (parse_line labelled ts)
unfolding parse_line
parse_line-LineLeft labelled ts =
    if_case (LineLeft labelled (length ts)) (check Lexer.directive ts)
      (λ h.
        statement-LineLeft labelled (length ts) (check-nonempty Lexer.directive ts refl h)
          (parse_directive-Left ts))
      (λ other.
        if_case (LineLeft labelled (length ts)) (check Lexer.identifier ts)
          (λ h.
            statement-LineLeft labelled (length ts) (check-nonempty Lexer.identifier ts refl h)
              (parse_instruction-Left ts))
          (λ neither. bare labelled))
  where
    bare :
        (b : Bool)
        → LineLeft b
            (length ts)
            (throw_if (not b) expected_statement >> ok ([], consume_newlines ts))
    bare true = labels_left (consume_newlines ts) refl (consume_newlines-le ts)
    bare false = line_failed expected_statement refl

-- Labels pass tokens.
record Passed (ts : List Token) (labels : List Statement × List Token) : Type 0 where
  fewer : length labels.1 ≤ length ts
  labelled : not (null labels.0) ≡ true → length labels.1 + 1 ≤ length ts

take_labels-Passed : (ts : List Token) → Passed ts (take_labels ts)
unfolding take_labels
take_labels-Passed [] = record { fewer = omega arith; labelled = λ h. cc }
take_labels-Passed (t ∷ []) = record { fewer = omega arith; labelled = λ h. cc }
take_labels-Passed (t ∷ u ∷ rest) =
    let ih = take_labels-Passed rest in
    let stop : Passed (t ∷ u ∷ rest) ([], t ∷ u ∷ rest) = record {
      fewer = omega arith;
      labelled = λ h. cc;
    } in
    let one : Passed (t ∷ u ∷ rest) (label_decl t.text ∷ [], rest) = record {
      fewer = omega arith;
      labelled = λ h. omega arith;
    } in
    let all : Passed (t ∷ u ∷ rest)
        (label_decl t.text ∷ (take_labels rest).0, (take_labels rest).1) =
      record { fewer = omega (arith, ih.fewer); labelled = λ h. omega (arith, ih.fewer) } in
    if_both (Passed (t ∷ u ∷ rest)) _
      (if_both (Passed (t ∷ u ∷ rest)) (check Lexer.newline rest) one all) stop

-- A call that does not run out of fuel.
abbrev Ended : Statements → Type 0
Ended (err e) = is_fuel e ≡ false
Ended (ok statements) = Unit

with_statements-Ended :
    (found : List Statement) (r : Statements) → Ended r → Ended (with_statements found r)
with_statements-Ended found (err e) h = h
with_statements-Ended found (ok others) h = tt

end_line-Left :
    (ts : List Token) (n : ℕ) (k : List Token → Statements)
    → length ts + 1 ≤ n
    → ((next : List Token) → length next + 1 ≤ n → Ended (k next))
    → Ended (end_line ts >>= k)
unfolding end_line
end_line-Left ts n k h f =
    if_both (λ (r : Result ParseError (List Token)). Ended (r >>= k)) (check Lexer.newline ts)
      (f (advance ts) (omega (arith, h, advance-le ts))) (last (not (check Lexer.end_of_file ts)))
  where
    last : (b : Bool) → Ended ((throw_if b expected_end_of_line >> ok ts) >>= k)
    last true = refl
    last false = f ts h

parse_from-Ended : (fuel : ℕ) (ts : List Token) → length ts < fuel → Ended (parse_from fuel ts)
unfolding parse_from
parse_from-Ended zero ts h = absurd (omega arith)
parse_from-Ended (suc fuel) ts h =
    let lines = consume_newlines ts in
    let labels = take_labels lines in
    let fewer = consume_newlines-le ts in
    let passed = take_labels-Passed lines in
    elim_case Ended (check Lexer.end_of_file lines) (λ over. tt)
      (λ more.
        elim_case Ended (check Lexer.newline labels.1)
          (λ line. with_statements-Ended labels.0 (parse_from fuel (advance labels.1)) (
            parse_from-Ended fuel (advance labels.1)
              (omega (arith, h, fewer, passed.fewer, advance-lt Lexer.newline labels.1 refl line))))
          (λ other.
            line_case (not (null labels.0)) (length labels.1) labels.0 (parse_from fuel)
              (omega (arith, h, fewer, passed.fewer))
              (λ labelled. omega (arith, h, fewer, passed.labelled labelled))
              (λ us. parse_from-Ended fuel us)
              (parse_line-LineLeft (not (null labels.0)) labels.1)))
  where
    line_case :
        (labelled : Bool) (n : ℕ) (found : List Statement) (next : List Token → Statements)
        → n < suc fuel
        → (labelled ≡ true → n < fuel)
        → ((us : List Token) → length us < fuel → Ended (next us))
        → {r : Result ParseError (List Statement × List Token)} → LineLeft labelled n r
        → Ended (
            r >>= λ line. elim (null line.0) [
              | true ↦ with_statements found (next line.1)
              | false ↦ end_line line.1 >>= λ us. with_statements (found ++ line.0) (next us)
            ])
    line_case labelled n found next small smaller ih (line_failed e g) = g
    line_case labelled n found next small smaller ih (statement_left s us g) =
        end_line-Left us n (λ vs. with_statements (found ++ (s ∷ [])) (next vs)) g
          (λ vs f.
            with_statements-Ended (found ++ (s ∷ [])) (next vs) (ih vs (omega (arith, small, f))))
    line_case labelled n found next small smaller ih (labels_left us e g) =
        with_statements-Ended found (next us) (ih us (omega (arith, smaller e, g)))

-- The parser ends on every list of tokens: its loops never run out of the fuel of one round for each
-- token and one more, so `Parse` returns a program or an error of the code.
pub parse-Ended : (ts : List Token) → parse ts ≢ err out_of_fuel
unfolding parse
parse-Ended ts same = not_fuel (parse ts) (parse_from-Ended (suc (length ts)) ts (omega arith)) same
  where
    clash : {b : Bool} → b ≡ true → b ≡ false → ⊥
    clash p q = cc

    not_fuel : (r : Statements) → Ended r → r ≡ err out_of_fuel → ⊥
    not_fuel (err e) h same = let e_fuel : e ≡ out_of_fuel = cc in clash (ap is_fuel e_fuel) h
    not_fuel (ok found) h same = cc
