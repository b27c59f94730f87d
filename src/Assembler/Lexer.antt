-- ===== src/Assembler/Lexer.antt =====
-- The lexer: assembler/src/lexer.cpp and assembler/include/irata2/assembler/token.h. The lexer's state is the rest
-- of the source with the position in it; a span is kept without the file's name.
pub mod Numbers
pub mod Progress
pub mod Ends
use irata.Prelude.{
  Text, ℕ, zero, suc, ◌+◌, ◌-◌, ◌*◌, Bool, true, false, not, ◌&&◌, ◌||◌, Option, none, some, List,
  [], ◌∷◌, ◌++◌, map, length, null, ◌==◌, ltb, leb, if◌then◌else◌, Result, ok, err, ◌>>=◌, ◌>>◌,
  throw_if,
}
use irata.Bits.{u32}

pub data TokenKind : Type 0 where
  identifier number directive string comma left_paren right_paren colon hash : TokenKind
  newline end_of_file : TokenKind

pub record Token : Type 0 where
  pub kind : TokenKind
  pub text : Text
  pub line : ℕ
  pub column : ℕ
  pub span_length : ℕ
  pub number : Option ℕ
  pub string_value : Option Text

-- The `AssemblerError`s of the lexer, and `out_of_fuel`, which is the model's.
pub data LexError : Type 0 where
  invalid_numeric_literal unexpected_character expected_identifier : LexError
  unterminated_string invalid_escape out_of_fuel : LexError

-- The ranges of the C library's character tests.
abbrev pub between : ℕ → ℕ → ℕ → Bool
between low high ch = leb low ch && leb ch high

abbrev pub is_digit : ℕ → Bool
is_digit = between b'0' b'9'

abbrev pub is_alpha : ℕ → Bool
is_alpha ch = between b'a' b'z' ch || between b'A' b'Z' ch

abbrev pub is_alnum : ℕ → Bool
is_alnum ch = is_alpha ch || is_digit ch

abbrev pub lower : ℕ → ℕ
lower ch = if between b'A' b'Z' ch then ch + 32 else ch

-- `ToLower`
abbrev pub to_lower : Text → Text
to_lower = map lower

abbrev pub is_identifier_start : ℕ → Bool
is_identifier_start ch = is_alpha ch || ch == b'_'

abbrev pub is_identifier_char : ℕ → Bool
is_identifier_char ch = is_alnum ch || ch == b'_'

-- `ParseNumberLiteral`: the base and the digits behind the prefix.
unfoldable pub strip_hash : Text → Text
strip_hash [] = []
strip_hash (c ∷ cs) = if c == b'#' then cs else c ∷ cs

unfoldable pub split_base : Text → ℕ × Text
split_base [] = (10, [])
split_base (c ∷ []) = if c == b'$' then (16, []) else (if c == b'%' then (2, []) else (10, c ∷ []))
split_base (c ∷ d ∷ rest) =
    if c == b'$'
    then (16, d ∷ rest)
    else (if c == b'%'
        then (2, d ∷ rest)
        else (if not (null rest) && (c == b'0' && (d == b'x' || d == b'X'))
            then (16, rest)
            else (if not (null rest) && (c == b'0' && (d == b'b' || d == b'B'))
                then (2, rest)
                else (10, c ∷ d ∷ rest))))

-- The digit of a character, where it has one.
unfoldable pub digit_of : ℕ → Option ℕ
digit_of ch =
    if between b'0' b'9' ch
    then some (ch - b'0')
    else (if between b'a' b'f' ch
        then some (10 + (ch - b'a'))
        else (if between b'A' b'F' ch then some (10 + (ch - b'A')) else none))

-- The loop over the digits, with the value so far.
unfoldable pub parse_digits : ℕ → ℕ → Text → Result LexError ℕ
unfolding digit_of
parse_digits base parsed [] = ok parsed
parse_digits base parsed (ch ∷ rest) = elim (digit_of ch) [
  | none ↦ err invalid_numeric_literal
  | some digit ↦
      throw_if (leb base digit) invalid_numeric_literal
      >> parse_digits base (u32 (u32 (parsed * base) + digit)) rest
]

unfoldable pub parse_number_literal : Text → Result LexError ℕ
unfolding strip_hash split_base parse_digits
parse_number_literal text =
    let found = split_base (strip_hash text) in
    throw_if (null found.1) invalid_numeric_literal >> parse_digits found.0 0 found.1

pub record Lexer : Type 0 where
  pub rest : Text
  pub line : ℕ
  pub column : ℕ

-- `Advance`, past a character at a position.
abbrev pub next_line : ℕ → ℕ → ℕ
next_line ch line = if ch == b'\n' then line + 1 else line

abbrev pub next_column : ℕ → ℕ → ℕ
next_column ch column = if ch == b'\n' then 1 else column + 1

unfoldable pub advance : Lexer → Lexer
advance s = elim s.rest [
  | [] ↦ s
  | ch ∷ cs ↦ record { rest = cs; line = next_line ch s.line; column = next_column ch s.column }
]

abbrev pub peek : Text → ℕ
peek [] = 0
peek (ch ∷ cs) = ch

abbrev pub peek_next : Text → ℕ
peek_next [] = 0
peek_next (ch ∷ cs) = peek cs

-- `while (!AtEnd() && test(Peek())) Advance();` with the characters that it passes.
unfoldable pub advance_while : (ℕ → Bool) → Text → ℕ → ℕ → Text × Lexer
advance_while test [] line column = ([], record { rest = []; line = line; column = column })
advance_while test (ch ∷ cs) line column = elim (test ch) [
  | true ↦
      let later = advance_while test cs (next_line ch line) (next_column ch column) in
      (ch ∷ later.0, later.1)
  | false ↦ ([], record { rest = ch ∷ cs; line = line; column = column })
]

abbrev pub is_space : ℕ → Bool
is_space ch = ch == b' ' || (ch == b'\t' || ch == b'\r')

-- `SkipWhitespace`
unfoldable pub skip_whitespace : Lexer → Lexer
unfolding advance_while
skip_whitespace s = (advance_while is_space s.rest s.line s.column).1

-- `SkipComment`
unfoldable pub skip_comment : Lexer → Lexer
unfolding advance_while
skip_comment s = (advance_while (λ ch. not (ch == b'\n')) s.rest s.line s.column).1

-- `MakeToken` of length 1 behind the character, as the lexer calls it.
abbrev pub make_token : TokenKind → Text → ℕ → Lexer → Token
make_token kind text span_length s = record {
  kind = kind;
  text = text;
  line = s.line;
  column = s.column;
  span_length = span_length;
  number = none;
  string_value = none;
}

abbrev pub Found : Type 0
Found = Result LexError (Token × Lexer)

-- `LexIdentifierOrDirective`, behind the dot of a directive.
unfoldable pub lex_name : TokenKind → ℕ → ℕ → Lexer → Found
unfolding advance_while
lex_name kind start_column dots s =
    throw_if (not (is_identifier_start (peek s.rest))) expected_identifier
    >> (let passed = advance_while is_identifier_char s.rest s.line s.column in
        ok (
          record {
            kind = kind;
            text = to_lower passed.0;
            line = passed.1.line;
            column = start_column;
            span_length = length passed.0 + dots;
            number = none;
            string_value = none;
          },
          passed.1,
        ))

unfoldable pub lex_identifier_or_directive : Lexer → Found
unfolding advance lex_name
lex_identifier_or_directive s =
    if peek s.rest == b'.'
    then lex_name directive s.column 1 (advance s)
    else lex_name identifier s.column 0 s

abbrev pub is_prefix_letter : ℕ → Bool
is_prefix_letter ch = ch == b'x' || (ch == b'X' || (ch == b'b' || ch == b'B'))

-- The characters that `LexNumber` passes before its loop: a hash, then a sign or a prefix.
unfoldable pub hash_length : Text → ℕ
hash_length rest = if peek rest == b'#' then 1 else 0

unfoldable pub prefix_length : Text → ℕ
prefix_length rest =
    if peek rest == b'$' || peek rest == b'%'
    then 1
    else (if peek rest == b'0' && is_prefix_letter (peek_next rest) then 2 else 0)

unfoldable pub advance_by : ℕ → Lexer → Text × Lexer
unfolding advance
advance_by zero s = ([], s)
advance_by (suc n) s =
    let later = advance_by n (advance s) in
    (elim s.rest [ [] ↦ later.0 | ch ∷ cs ↦ ch ∷ later.0 ], later.1)

unfoldable pub lex_number : Lexer → Found
unfolding hash_length prefix_length advance_by advance_while parse_number_literal
lex_number s =
    let hashed = advance_by (hash_length s.rest) s in
    let prefixed = advance_by (prefix_length hashed.1.rest) hashed.1 in
    let passed = advance_while is_alnum prefixed.1.rest prefixed.1.line prefixed.1.column in
    let text = hashed.0 ++ (prefixed.0 ++ passed.0) in
    (parse_number_literal text >>= λ value. ok (
      record {
        kind = number;
        text = text;
        line = passed.1.line;
        column = s.column;
        span_length = length text;
        number = some value;
        string_value = none;
      },
      passed.1,
    ))

-- What stands in a string literal behind its opening quote: the value, the text and what follows.
pub record StringBody : Type 0 where
  pub value : Text
  pub text : Text
  pub after : Lexer

pub data StringStep : Type 0 where
  close unterminated escape plain : StringStep

unfoldable pub string_step : ℕ → StringStep
string_step ch =
    if ch == b'"'
    then close
    else (if ch == b'\n' then unterminated else (if ch == b'\\' then escape else plain))

abbrev pub extend : Text → Text → Result LexError StringBody → Result LexError StringBody
extend value text (err e) = err e
extend value text (ok body) =
    ok (record { value = value ++ body.value; text = text ++ body.text; after = body.after })

-- The loop of `LexString` with the closing quote.
unfoldable pub string_body : Text → ℕ → ℕ → Result LexError StringBody
unfolding string_step
string_body [] line column = err unterminated_string
string_body (ch ∷ []) line column = elim (string_step ch) [
  | close ↦ ok (record {
    value = [];
    text = ch ∷ [];
    after = record { rest = []; line = line; column = column + 1 };
  })
  | unterminated ↦ err unterminated_string
  | escape ↦ err unterminated_string
  | plain ↦ err unterminated_string
]
string_body (ch ∷ next ∷ rest) line column = elim (string_step ch) [
  | close ↦ ok (record {
    value = [];
    text = ch ∷ [];
    after = record { rest = next ∷ rest; line = line; column = column + 1 };
  })
  | unterminated ↦ err unterminated_string
  | escape ↦
      throw_if (not (next == b'"' || next == b'\\')) invalid_escape
      >> extend (next ∷ []) (ch ∷ next ∷ []) (string_body rest line (column + 2))
  | plain ↦ extend (ch ∷ []) (ch ∷ []) (string_body (next ∷ rest) line (column + 1))
]

unfoldable pub lex_string : Lexer → Found
unfolding advance string_body
lex_string s =
    let opened = advance s in
    (string_body opened.rest opened.line opened.column >>= λ body. ok (
      record {
        kind = string;
        text = b'"' ∷ body.text;
        line = body.after.line;
        column = s.column;
        span_length = suc (length body.text);
        number = none;
        string_value = some body.value;
      },
      body.after,
    ))

-- A character that is a token by itself: `Advance` and then `MakeToken`.
abbrev pub single : TokenKind → Text → Lexer → Found
single kind text s = ok (make_token kind text 1 s, s)

-- `NextToken`, with fuel for the call behind a comment.
unfoldable pub next_token : ℕ → Lexer → Found
unfolding skip_whitespace skip_comment advance lex_identifier_or_directive lex_number lex_string
next_token zero start = err out_of_fuel
next_token (suc fuel) start =
    let s = skip_whitespace start in
    let ch = peek s.rest in
    if null s.rest
    then ok (make_token end_of_file [] 0 s, s)
    else (if ch == b'\n'
        then single newline (b'\n' ∷ []) (advance s)
        else (if ch == b';'
            then next_token fuel (skip_comment s)
            else (if ch == b','
                then single comma [] (advance s)
                else (if ch == b'('
                    then single left_paren [] (advance s)
                    else (if ch == b')'
                        then single right_paren [] (advance s)
                        else (if ch == b':'
                            then single colon [] (advance s)
                            else (if ch == b'"'
                                then lex_string s
                                else (if ch == b'.' || is_identifier_start ch
                                    then lex_identifier_or_directive s
                                    else (if ch == b'#'
                                        then (if is_identifier_start (peek_next s.rest)
                                            then single hash [] (advance s)
                                            else lex_number s)
                                        else (if ch == b'$' || (ch == b'%' || is_digit ch)
                                            then lex_number s
                                            else err unexpected_character))))))))))

abbrev pub is_end : TokenKind → Bool
is_end end_of_file = true
is_end _ = false

-- `Lex`
unfoldable pub lex_from : ℕ → Lexer → Result LexError (List Token)
unfolding next_token
lex_from zero s = err out_of_fuel
lex_from (suc fuel) s =
    (next_token 2 s >>= λ found. elim (is_end found.0.kind) [
      | true ↦ ok (found.0 ∷ [])
      | false ↦ lex_from fuel found.1 >>= λ others. ok (found.0 ∷ others)
    ])

unfoldable pub lex : Text → Result LexError (List Token)
unfolding lex_from
lex source = lex_from (suc (length source)) (record { rest = source; line = 1; column = 1 })
