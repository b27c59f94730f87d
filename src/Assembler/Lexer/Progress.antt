-- ===== src/Assembler/Lexer/Progress.antt =====
-- Each call of the lexer passes a character: assembler/src/lexer.cpp.
use irata.Prelude.{
  Text, ℕ, zero, suc, ◌+◌, ◌-◌, ◌*◌, ◌≤◌, ◌<◌, ◌≡◌, refl, Bool, true, false, not, ◌||◌, Option,
  none, some, [], ◌∷◌, ◌++◌, length, null, ◌==◌, leb, if◌then◌else◌, Result, ok, err, ◌>>=◌, ◌>>◌,
  throw_if, arith, ◌⊎◌, Bool-cases, inl, inr, not-false,
}
use irata.Bits.{u32}
use irata.Assembler.Lexer.{
  Token, TokenKind, LexError, out_of_fuel, invalid_numeric_literal, next_line, next_column, Lexer,
  Found, advance, advance_while, advance_by, peek, is_end, is_alnum, is_digit, is_identifier_char,
  is_identifier_start, digit_of, parse_digits, strip_hash, split_base, parse_number_literal,
  lex_name, lex_identifier_or_directive, lex_number, hash_length, prefix_length, StringBody,
  StringStep, string_step, string_body, lex_string, close, unterminated, escape, plain, extend,
  identifier, directive,
}

abbrev pub is_fuel : LexError → Bool
is_fuel out_of_fuel = true
is_fuel _ = false

-- A call that does not run out of fuel.
abbrev NoFuel : {A : Type 0} → Result LexError A → Type 0
NoFuel (err e) = is_fuel e ≡ false
NoFuel (ok a) = Unit

-- An error of the code, or a token, with fewer than `n` characters behind it if it is not the end.
abbrev pub Shorter : ℕ → Found → Type 0
Shorter n (err e) = is_fuel e ≡ false
Shorter n (ok found) = is_end found.0.kind ≡ false → length found.1.rest < n

value-Shorter :
    (n : ℕ) (r : Result LexError ℕ) (make : ℕ → Token) (after : Lexer)
    → NoFuel r
    → length after.rest < n
    → Shorter n (r >>= λ value. ok (make value, after))
value-Shorter n (err e) make after h k = h
value-Shorter n (ok value) make after h k = λ going. k

Shorter-guard :
    (n : ℕ) (b : Bool) (e : LexError) (k : Found)
    → is_fuel e ≡ false
    → (b ≡ false → Shorter n k)
    → Shorter n (throw_if b e >> k)
Shorter-guard n true e k h f = h
Shorter-guard n false e k h f = f refl

NoFuel-guard :
    {A : Type 0} (b : Bool) (e : LexError) (k : Result LexError A)
    → is_fuel e ≡ false
    → NoFuel k
    → NoFuel (throw_if b e >> k)
NoFuel-guard true e k h f = h
NoFuel-guard false e k h f = f

parse_digits-NoFuel : (base parsed : ℕ) (cs : Text) → NoFuel (parse_digits base parsed cs)
unfolding parse_digits
parse_digits-NoFuel base parsed [] = tt
parse_digits-NoFuel base parsed (c ∷ cs) =
    over (digit_of c) (λ parsed'. parse_digits-NoFuel base parsed' cs)
  where
    over :
        (o : Option ℕ)
        → ((parsed' : ℕ) → NoFuel (parse_digits base parsed' cs))
        → NoFuel {A = ℕ} (elim o [
          | none ↦ err invalid_numeric_literal
          | some digit ↦
              throw_if (leb base digit) invalid_numeric_literal
              >> parse_digits base (u32 (u32 (parsed * base) + digit)) cs
        ])
    over none ih = refl
    over (some digit) ih =
        NoFuel-guard (leb base digit) invalid_numeric_literal
          (parse_digits base (u32 (u32 (parsed * base) + digit)) cs) refl
          (ih (u32 (u32 (parsed * base) + digit)))

parse_number_literal-NoFuel : (text : Text) → NoFuel (parse_number_literal text)
unfolding parse_number_literal
parse_number_literal-NoFuel text =
    let found = split_base (strip_hash text) in
    NoFuel-guard (null found.1) invalid_numeric_literal (parse_digits found.0 0 found.1) refl
      (parse_digits-NoFuel found.0 0 found.1)

pub advance_while-le :
    (test : ℕ → Bool) (cs : Text) (line column : ℕ)
    → length (advance_while test cs line column).1.rest ≤ length cs
unfolding advance_while
advance_while-le test [] line column = omega arith
advance_while-le test (c ∷ cs) line column = elim (Bool-cases (test c)) [
  | inl on ↦
      rw (on, advance_while)
        (omega (arith, advance_while-le test cs (next_line c line) (next_column c column)))
  | inr off ↦ rw (off, advance_while) (omega arith)
]

advance_while-lt :
    (test : ℕ → Bool) (cs : Text) (line column : ℕ)
    → null cs ≡ false
    → test (peek cs) ≡ true
    → length (advance_while test cs line column).1.rest < length cs
unfolding advance_while
advance_while-lt test [] line column h t = cc
advance_while-lt test (c ∷ cs) line column h t =
    rw (t, advance_while)
      (omega (arith, advance_while-le test cs (next_line c line) (next_column c column)))

pub advance-length : (s : Lexer) → length (advance s).rest ≡ length s.rest - 1
unfolding advance
advance-length s = at s.rest
  where
    at :
        (cs : Text)
        → length (advance (record { rest = cs; line = s.line; column = s.column })).rest
          ≡ length cs - 1
    at [] = omega arith
    at (c ∷ cs) = omega arith

advance_by-length : (n : ℕ) (s : Lexer) → length (advance_by n s).1.rest ≡ length s.rest - n
unfolding advance_by
advance_by-length zero s = omega arith
advance_by-length (suc n) s = omega (arith, advance_by-length n (advance s), advance-length s)

-- A statement about a conditional, by its test.
pub if_case {ℓ κ} :
    {A : Type ℓ} (Q : A → Type κ) (test : Bool) {yes no : A}
    → (test ≡ true → Q yes)
    → (test ≡ false → Q no)
    → Q (if test then yes else no)
if_case Q true h k = h refl
if_case Q false h k = k refl

pub null-length : (cs : Text) → null cs ≡ false → 1 ≤ length cs
null-length [] h = cc
null-length (c ∷ cs) h = omega arith

lex_name-Shorter :
    (kind : TokenKind) (start_column dots n : ℕ) (s : Lexer)
    → length s.rest ≤ n
    → Shorter n (lex_name kind start_column dots s)
unfolding lex_name
lex_name-Shorter kind start_column dots n s h =
    Shorter-guard n (not (is_identifier_start (peek s.rest))) _ _ refl
      (λ starts more. started s.rest h (not-false _ starts))
  where
    start_of : (ch : ℕ) → is_identifier_start ch ≡ true → is_identifier_char ch ≡ true
    start_of ch e = ground (arith, e)

    nonempty : (cs : Text) → is_identifier_start (peek cs) ≡ true → null cs ≡ false
    nonempty [] e = cc
    nonempty (c ∷ cs) e = refl

    started :
        (cs : Text)
        → length cs ≤ n
        → is_identifier_start (peek cs) ≡ true
        → length (advance_while is_identifier_char cs s.line s.column).1.rest < n
    started cs h e =
        let fewer =
          advance_while-lt is_identifier_char cs s.line s.column (nonempty cs e)
            (start_of (peek cs) e) in
        omega (arith, fewer, h)

pub lex_identifier_or_directive-Shorter :
    (n : ℕ) (s : Lexer) → length s.rest ≤ n → Shorter n (lex_identifier_or_directive s)
unfolding lex_identifier_or_directive
lex_identifier_or_directive-Shorter n s h =
    if_case (Shorter n) (peek s.rest == b'.')
      (λ dot. lex_name-Shorter directive s.column 1 n (advance s) (omega (arith, advance-length s)))
      (λ other. lex_name-Shorter identifier s.column 0 n s h)

module _ (s : Lexer) (more : null s.rest ≡ false) where
  -- What is left behind a number whose hash and prefix have these lengths.
  shorter :
      (hashes prefixes : ℕ)
      → 1 ≤ hashes + prefixes
      → (let prefixed = (advance_by prefixes (advance_by hashes s).1).1 in
          length (advance_while is_alnum prefixed.rest prefixed.line prefixed.column).1.rest)
        < length s.rest
  shorter hashes prefixes h =
      let hashed = (advance_by hashes s).1 in
      let prefixed = (advance_by prefixes hashed).1 in
      omega (
        arith,
        null-length s.rest more,
        advance_by-length hashes s,
        advance_by-length prefixes hashed,
        advance_while-le is_alnum prefixed.rest prefixed.line prefixed.column,
      )

  number_rest :
      (hashes prefixes : ℕ)
      → (1 ≤ hashes + prefixes) ⊎ (is_alnum (peek s.rest) ≡ true)
      → (let prefixed = (advance_by prefixes (advance_by hashes s).1).1 in
          length (advance_while is_alnum prefixed.rest prefixed.line prefixed.column).1.rest)
        < length s.rest
  unfolding advance_by
  number_rest zero zero (inl one) = absurd (omega arith)
  number_rest zero zero (inr alnum) = advance_while-lt is_alnum s.rest s.line s.column more alnum
  number_rest zero (suc prefixes) h = shorter 0 (suc prefixes) (omega arith)
  number_rest (suc hashes) prefixes h = shorter (suc hashes) prefixes (omega arith)

  some_progress :
      (peek s.rest == b'#'
          || (peek s.rest == b'$' || (peek s.rest == b'%' || is_digit (peek s.rest))))
        ≡ true
      → (1 ≤ hash_length s.rest + prefix_length (advance_by (hash_length s.rest) s).1.rest)
        ⊎ (is_alnum (peek s.rest) ≡ true)
  unfolding hash_length prefix_length advance_by
  some_progress starts = elim (Bool-cases (peek s.rest == b'#')) [
    | inl sharp ↦ inl (rw sharp (omega arith))
    | inr other ↦ elim (Bool-cases (peek s.rest == b'$' || peek s.rest == b'%')) [
      | inl sign ↦ inl (rw (other, sign) (omega arith))
      | inr digit ↦ inr (ground (arith, starts, other, digit))
    ]
  ]

pub lex_number-Shorter :
    (n : ℕ) (s : Lexer)
    → length s.rest ≤ n
    → null s.rest ≡ false
    → (peek s.rest == b'#'
        || (peek s.rest == b'$' || (peek s.rest == b'%' || is_digit (peek s.rest))))
      ≡ true
    → Shorter n (lex_number s)
unfolding lex_number
lex_number-Shorter n s h more starts =
    let hashed = advance_by (hash_length s.rest) s in
    let prefixed = advance_by (prefix_length hashed.1.rest) hashed.1 in
    let passed = advance_while is_alnum prefixed.1.rest prefixed.1.line prefixed.1.column in
    let fewer =
      number_rest s more (hash_length s.rest) (prefix_length hashed.1.rest)
        (some_progress s more starts) in
    value-Shorter n (parse_number_literal (hashed.0 ++ (prefixed.0 ++ passed.0))) _ passed.1
      (parse_number_literal-NoFuel (hashed.0 ++ (prefixed.0 ++ passed.0))) (omega (arith, fewer, h))

abbrev BodyShorter : ℕ → Result LexError StringBody → Type 0
BodyShorter n (err e) = is_fuel e ≡ false
BodyShorter n (ok body) = length body.after.rest < n

four :
    {A : Type 0} (Q : A → Type 0) (st : StringStep) {a b c d : A}
    → Q a
    → Q b
    → Q c
    → Q d
    → Q (elim st [ close ↦ a | unterminated ↦ b | escape ↦ c | plain ↦ d ])
four Q close a b c d = a
four Q unterminated a b c d = b
four Q escape a b c d = c
four Q plain a b c d = d

extend-BodyShorter :
    (m n : ℕ) (value text : Text) (r : Result LexError StringBody)
    → m ≤ n
    → BodyShorter m r
    → BodyShorter n (extend value text r)
extend-BodyShorter m n value text (err e) h k = k
extend-BodyShorter m n value text (ok body) h k = omega (arith, k)

guard-BodyShorter :
    (n : ℕ) (b : Bool) (e : LexError) (k : Result LexError StringBody)
    → is_fuel e ≡ false
    → BodyShorter n k
    → BodyShorter n (throw_if b e >> k)
guard-BodyShorter n true e k h f = h
guard-BodyShorter n false e k h f = f

string_body-BodyShorter :
    (cs : Text) (line column : ℕ) → BodyShorter (length cs) (string_body cs line column)
unfolding string_body
string_body-BodyShorter [] line column = refl
string_body-BodyShorter (ch ∷ []) line column =
    four (BodyShorter 1) (string_step ch) (omega arith) refl refl refl
string_body-BodyShorter (ch ∷ next ∷ rest) line column =
    four (BodyShorter (suc (suc (length rest)))) (string_step ch) (omega arith) refl
      (guard-BodyShorter (suc (suc (length rest))) _ _ _ refl (
        extend-BodyShorter (length rest) (suc (suc (length rest))) (next ∷ []) (ch ∷ next ∷ []) _
          (omega arith) (string_body-BodyShorter rest line (column + 2))))
      (extend-BodyShorter (suc (length rest)) (suc (suc (length rest))) (ch ∷ []) (ch ∷ []) _
        (omega arith) (string_body-BodyShorter (next ∷ rest) line (column + 1)))

body-Shorter :
    (m n : ℕ) (r : Result LexError StringBody) (make : StringBody → Token)
    → m ≤ n
    → BodyShorter m r
    → Shorter n (r >>= λ body. ok (make body, body.after))
body-Shorter m n (err e) make h k = k
body-Shorter m n (ok body) make h k = λ going. omega (arith, h, k)

pub lex_string-Shorter : (n : ℕ) (s : Lexer) → length s.rest ≤ n → Shorter n (lex_string s)
unfolding lex_string
lex_string-Shorter n s h =
    body-Shorter (length (advance s).rest) n
      (string_body (advance s).rest (advance s).line (advance s).column) _
      (omega (arith, h, advance-length s))
      (string_body-BodyShorter (advance s).rest (advance s).line (advance s).column)
