-- ===== src/Assembler/Lexer/Ends.antt =====
-- The lexer ends: assembler/src/lexer.cpp.
use irata.Prelude.{
  Text, ℕ, zero, suc, ◌≤◌, ◌<◌, ◌≡◌, ◌≢◌, refl, ap, ◌∙◌, Bool, true, false, not, ◌||◌, List, [],
  ◌∷◌, length, null, ◌==◌, Result, ok, err, ◌>>=◌, arith, ◌⊎◌, Bool-cases, inl, inr, not-false,
  ==→eq,
}
use irata.Assembler.Lexer.{
  Token, TokenKind, LexError, out_of_fuel, next_line, next_column, Lexer, Found, advance,
  advance_while, peek, peek_next, is_end, is_digit, is_identifier_start, is_space, skip_whitespace,
  skip_comment, next_token, lex_from, lex, single, newline, comma, left_paren, right_paren, colon,
  hash,
}
use irata.Assembler.Lexer.Progress.{
  is_fuel, Shorter, if_case, null-length, advance-length, advance_while-le,
  lex_identifier_or_directive-Shorter, lex_number-Shorter, lex_string-Shorter,
}

-- A character that is a token by itself.
single-Shorter :
    (n : ℕ) (kind : TokenKind) (text : Text) (s : Lexer)
    → length s.rest ≤ n
    → null s.rest ≡ false
    → Shorter n (single kind text (advance s))
single-Shorter n kind text s h more going =
    omega (arith, h, null-length s.rest more, advance-length s)

skip_whitespace-le : (s : Lexer) → length (skip_whitespace s).rest ≤ length s.rest
unfolding skip_whitespace
skip_whitespace-le s = advance_while-le is_space s.rest s.line s.column

skip_comment-le : (s : Lexer) → length (skip_comment s).rest ≤ length s.rest
unfolding skip_comment
skip_comment-le s = advance_while-le (λ ch. not (ch == b'\n')) s.rest s.line s.column

-- A round of `NextToken`, given what the call behind a comment does.
next_token-round :
    (fuel : ℕ) (start : Lexer)
    → ((peek (skip_whitespace start).rest == b';') ≡ true
        → Shorter (length start.rest) (next_token fuel (skip_comment (skip_whitespace start))))
    → Shorter (length start.rest) (next_token (suc fuel) start)
unfolding next_token
next_token-round fuel start behind =
    let n = length start.rest in
    let s = skip_whitespace start in
    let fits = skip_whitespace-le start in
    if_case (Shorter n) (null s.rest) (λ over going. cc)
      (λ more.
        if_case (Shorter n) (peek s.rest == b'\n')
          (λ e. single-Shorter n newline (b'\n' ∷ []) s fits more)
          (λ e. if_case (Shorter n) (peek s.rest == b';') behind (λ e.
            if_case (Shorter n) (peek s.rest == b',') (λ e. single-Shorter n comma [] s fits more)
              (λ e.
                if_case (Shorter n) (peek s.rest == b'(')
                  (λ e. single-Shorter n left_paren [] s fits more)
                  (λ e.
                    if_case (Shorter n) (peek s.rest == b')')
                      (λ e. single-Shorter n right_paren [] s fits more)
                      (λ e.
                        if_case (Shorter n) (peek s.rest == b':')
                          (λ e. single-Shorter n colon [] s fits more)
                          (λ e.
                            if_case (Shorter n) (peek s.rest == b'"')
                              (λ e. lex_string-Shorter n s fits)
                              (λ e.
                                if_case (Shorter n)
                                  (peek s.rest == b'.' || is_identifier_start (peek s.rest))
                                  (λ e. lex_identifier_or_directive-Shorter n s fits)
                                  (λ e.
                                    if_case (Shorter n) (peek s.rest == b'#')
                                      (λ hashed.
                                        if_case (Shorter n) (is_identifier_start (peek_next s.rest))
                                          (λ e. single-Shorter n hash [] s fits more)
                                          (λ e.
                                            lex_number-Shorter n s fits more
                                              (ground (arith, hashed))))
                                      (λ e.
                                        if_case (Shorter n)
                                          (peek s.rest == b'$'
                                            || (peek s.rest == b'%' || is_digit (peek s.rest)))
                                          (λ starts.
                                            lex_number-Shorter n s fits more
                                              (ground (arith, starts)))
                                          (λ e. refl)))))))))))

-- Behind a comment stands a newline or nothing.
abbrev AtLineEnd : Text → Type 0
AtLineEnd rest = (null rest ≡ true) ⊎ ((null rest ≡ false) × (peek rest ≡ b'\n'))

line_end :
    (cs : Text) (line column : ℕ)
    → AtLineEnd (advance_while (λ ch. not (ch == b'\n')) cs line column).1.rest
unfolding advance_while
line_end [] line column = inl refl
line_end (c ∷ cs) line column = elim (Bool-cases (not (c == b'\n'))) [
  | inl on ↦ rw (on, advance_while) (line_end cs (next_line c line) (next_column c column))
  | inr off ↦ rw (off, advance_while) (inr (refl, ==→eq c b'\n' (not-false _ off)))
]

still :
    (cs : Text) (line column : ℕ)
    → AtLineEnd cs
    → (advance_while is_space cs line column).1 ≡ record { rest = cs; line = line; column = column }
unfolding advance_while
still [] line column h = refl
still (c ∷ cs) line column (inl e) = cc
still (c ∷ cs) line column (inr (e, same)) =
    let off : is_space c ≡ false = ground (arith, same) in rw (off, advance_while) refl

Shorter-le : (m n : ℕ) (r : Found) → m ≤ n → Shorter m r → Shorter n r
Shorter-le m n (err e) h k = k
Shorter-le m n (ok found) h k = λ going. omega (arith, h, k going)

not_comment : (rest : Text) → AtLineEnd rest → (peek rest == b';') ≡ false
not_comment [] h = refl
not_comment (c ∷ cs) (inl e) = cc
not_comment (c ∷ cs) (inr (e, same)) = ground (arith, same)

behind_comment : (s : Lexer) → (peek (skip_whitespace (skip_comment s)).rest == b';') ≡ false
unfolding skip_whitespace skip_comment
behind_comment s =
    let passed = (advance_while (λ ch. not (ch == b'\n')) s.rest s.line s.column).1 in
    let ended = line_end s.rest s.line s.column in
    ap (λ (t : Lexer). peek t.rest == b';') (still passed.rest passed.line passed.column ended)
    ∙ not_comment passed.rest ended

clash : {b : Bool} → b ≡ true → b ≡ false → ⊥
clash p q = cc

next_token-Shorter : (start : Lexer) → Shorter (length start.rest) (next_token 2 start)
next_token-Shorter start =
    let s = skip_whitespace start in
    next_token-round 1 start (λ comment.
      Shorter-le (length (skip_comment s).rest) (length start.rest) (next_token 1 (skip_comment s))
        (omega (arith, skip_whitespace-le start, skip_comment-le s))
        (next_token-round 0 (skip_comment s) (λ other. absurd (clash other (behind_comment s)))))

-- Tokens of which the last one, and no other, is the end.
abbrev pub EndsOnce : List Token → Type 0
EndsOnce [] = ⊥
EndsOnce (t ∷ []) = is_end t.kind ≡ true
EndsOnce (t ∷ u ∷ rest) = (is_end t.kind ≡ false) × EndsOnce (u ∷ rest)

abbrev pub Lexed : Result LexError (List Token) → Type 0
Lexed (err e) = e ≢ out_of_fuel
Lexed (ok tokens) = EndsOnce tokens

cons-EndsOnce :
    (t : Token) (tokens : List Token)
    → is_end t.kind ≡ false
    → EndsOnce tokens
    → EndsOnce (t ∷ tokens)
cons-EndsOnce t [] e h = absurd h
cons-EndsOnce t (u ∷ rest) e h = (e, h)

cons-Lexed :
    (t : Token) (r : Result LexError (List Token))
    → is_end t.kind ≡ false
    → Lexed r
    → Lexed (r >>= λ others. ok (t ∷ others))
cons-Lexed t (err e) going h = h
cons-Lexed t (ok tokens) going h = cons-EndsOnce t tokens going h

not_fuel : (e : LexError) → is_fuel e ≡ false → e ≢ out_of_fuel
not_fuel e h same = clash (ap is_fuel same) h

lex_from-Lexed : (fuel : ℕ) (s : Lexer) → length s.rest < fuel → Lexed (lex_from fuel s)
unfolding lex_from
lex_from-Lexed zero s h = absurd (omega arith)
lex_from-Lexed (suc fuel) s h =
    round (next_token 2 s) (next_token-Shorter s) (λ t. lex_from-Lexed fuel t)
  where
    token :
        (found : Token × Lexer) (b : Bool)
        → is_end found.0.kind ≡ b
        → (is_end found.0.kind ≡ false → length found.1.rest < length s.rest)
        → ((t : Lexer) → length t.rest < fuel → Lexed (lex_from fuel t))
        → Lexed (elim b [
          | true ↦ ok (found.0 ∷ [])
          | false ↦ lex_from fuel found.1 >>= λ others. ok (found.0 ∷ others)
        ])
    token found true e fewer ih = e
    token found false e fewer ih =
        cons-Lexed found.0 (lex_from fuel found.1) e (ih found.1 (omega (arith, fewer e, h)))

    round :
        (r : Found)
        → Shorter (length s.rest) r
        → ((t : Lexer) → length t.rest < fuel → Lexed (lex_from fuel t))
        → Lexed (
            r >>= λ found. elim (is_end found.0.kind) [
              | true ↦ ok (found.0 ∷ [])
              | false ↦ lex_from fuel found.1 >>= λ others. ok (found.0 ∷ others)
            ])
    round (err e) k ih = not_fuel e k
    round (ok found) k ih = token found (is_end found.0.kind) refl k ih

-- `Lex` ends on every source: it never runs out of the fuel of one call of `NextToken` for each
-- character and one more, and it returns an error of the code, or tokens of which the last one and
-- no other is the end of the file.
pub lex-Lexed : (source : Text) → Lexed (lex source)
unfolding lex
lex-Lexed source =
    lex_from-Lexed (suc (length source)) (record { rest = source; line = 1; column = 1 })
      (omega arith)
