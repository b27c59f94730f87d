-- ===== src/Sim/Json.antt =====
-- The JSON parser of sim/src/debug_symbols.cpp. Its state is the text from `pos_` on.
pub mod Ends
use irata.Prelude.{
  Text, ℕ, zero, suc, ◌+◌, ◌-◌, ◌*◌, ◌%◌, ◌^◌, Bool, true, false, not, ◌&&◌, ◌||◌, Option, none,
  some, List, [], ◌∷◌, length, null, leb, ltb, ◌==◌, if◌then◌else◌, Result, ok, err, ◌>>=◌, ◌>>◌,
  throw_if, same_text, less_text, codes,
}
use irata.Prelude.Int.{ℤ, pos, negsuc}
use irata.Prelude.Maps.{emplace_key}
use irata.Prelude.Digits.{digit_of, scan}

-- The `SimError`s of the parser, the `std::out_of_range` of `std::stoll`, and `out_of_fuel`, which is
-- the model's.
pub data JsonError : Type 0 where
  extra_data unexpected_character unexpected_token unterminated_escape : JsonError
  invalid_escape unterminated_string truncated_unicode invalid_unicode : JsonError
  invalid_number number_out_of_range out_of_fuel : JsonError

-- `JsonValue`, with the field that its type reads.
mutual
  pub data JsonValue : Type 0 where
    object : Members → JsonValue
    array : Items → JsonValue
    string : Text → JsonValue
    number : ℤ → JsonValue
    boolean : Bool → JsonValue
    null_value : JsonValue

  pub data Members : Type 0 where
    no_members : Members
    member : Text → JsonValue → Members → Members

  pub data Items : Type 0 where
    no_items : Items
    item : JsonValue → Items → Items

-- An object's map, as a list.
abbrev pub members_of : List (Text × JsonValue) → Members
members_of [] = no_members
members_of (e ∷ es) = member e.0 e.1 (members_of es)

abbrev pub entries_of : Members → List (Text × JsonValue)
entries_of no_members = []
entries_of (member k v ms) = (k, v) ∷ entries_of ms

abbrev pub items_of : List JsonValue → Items
items_of [] = no_items
items_of (v ∷ vs) = item v (items_of vs)

abbrev pub values_of : Items → List JsonValue
values_of no_items = []
values_of (item v vs) = v ∷ values_of vs

abbrev pub is_space : ℕ → Bool
is_space c = c == b' ' || c == b'\t' || c == b'\n' || c == b'\r'

unfoldable pub skip_whitespace : Text → Text
skip_whitespace [] = []
skip_whitespace (c ∷ cs) = let rest = skip_whitespace cs in if is_space c then rest else c ∷ cs

abbrev pub peek : Text → ℕ
peek [] = 0
peek (c ∷ cs) = c

abbrev pub consume : ℕ → Text → Result JsonError Text
consume expected [] = err unexpected_token
consume expected (c ∷ cs) = throw_if (not (c == expected)) unexpected_token >> ok cs

-- `Match`: the text behind a token.
abbrev pub match_token : Text → Text → Option Text
match_token [] s = some s
match_token (t ∷ ts) [] = none
match_token (t ∷ ts) (c ∷ cs) = let rest = match_token ts cs in if c == t then rest else none

-- Where `ParseString` is: between characters, behind a backslash, or behind some digits of a
-- `ParseUnicodeEscape`.
pub data StringState : Type 0 where
  plain escape : StringState
  unicode : (left value : ℕ) → StringState

-- What a character does to the string.
pub data StringStep : Type 0 where
  closes : StringStep
  adds : ℕ → StringStep
  waits : StringState → StringStep
  fails : JsonError → StringStep

-- The character of a `\u` escape.
abbrev pub unicode_char : ℕ → ℕ
unicode_char value = if ltb value 0x80 then value else b'?'

abbrev pub escape_step : ℕ → Text → StringStep
escape_step c rest =
    if c == b'"' || c == b'\\' || c == b'/'
    then adds c
    else if c == b'b'
    then adds 8
    else if c == b'f'
    then adds 12
    else if c == b'n'
    then adds 10
    else if c == b'r'
    then adds 13
    else if c == b't'
    then adds 9
    else if c == b'u'
    then (if ltb (length rest) 4 then fails truncated_unicode else waits (unicode 4 0))
    else fails invalid_escape

abbrev pub unicode_step : ℕ → ℕ → Option ℕ → StringStep
unicode_step left value none = fails invalid_unicode
unicode_step left value (some digit) =
    let next = value * 16 + digit in
    if left == 1 then adds (unicode_char next) else waits (unicode (left - 1) next)

unfoldable pub string_step : StringState → ℕ → Text → StringStep
unfolding digit_of
string_step plain c rest = if c == b'"' then closes else if c == b'\\' then waits escape else adds c
string_step escape c rest = escape_step c rest
string_step (unicode left value) c rest = unicode_step left value (digit_of 16 c)

abbrev pub with_char : ℕ → Result JsonError (Text × Text) → Result JsonError (Text × Text)
with_char c (err e) = err e
with_char c (ok (s, rest)) = ok (c ∷ s, rest)

-- What the end of the text means to the string.
abbrev pub string_end : StringState → JsonError
string_end escape = unterminated_escape
string_end _ = unterminated_string

-- The loop of `ParseString`.
unfoldable pub string_body : StringState → Text → Result JsonError (Text × Text)
unfolding string_step
string_body state [] = err (string_end state)
string_body state (c ∷ cs) = elim (string_step state c cs) [
  | closes ↦ ok ([], cs)
  | adds d ↦ with_char d (string_body plain cs)
  | waits next ↦ string_body next cs
  | fails e ↦ err e
]

-- `ParseString`
unfoldable pub parse_string : Text → Result JsonError (Text × Text)
unfolding string_body
parse_string s = consume b'"' s >>= λ rest. string_body plain rest

-- `std::stoll` of digits behind a sign.
abbrev pub stoll : Bool → ℕ → Result JsonError ℤ
stoll true n =
    throw_if (ltb (2 ^ 63) n) number_out_of_range >> ok (if n == 0 then pos 0 else negsuc (n - 1))
stoll false n = throw_if (leb (2 ^ 63) n) number_out_of_range >> ok (pos n)

abbrev pub is_decimal : ℕ → Bool
is_decimal c = leb b'0' c && leb c b'9'

-- The digits of a number behind its sign.
unfoldable pub parse_digits : Bool → Text → Result JsonError (ℤ × Text)
unfolding scan
parse_digits negative s =
    throw_if (not (is_decimal (peek s))) invalid_number
    >> (stoll negative (scan 10 0 s).0 >>= λ value. ok (value, (scan 10 0 s).1))

-- `ParseNumber`
unfoldable pub parse_number : Text → Result JsonError (ℤ × Text)
unfolding parse_digits
parse_number [] = err invalid_number
parse_number (c ∷ cs) = if c == b'-' then parse_digits true cs else parse_digits false (c ∷ cs)

-- What `ParseValue` finds at the front of the text.
pub data Start : Type 0 where
  literal : JsonValue → Text → Start
  object_start array_start string_start number_start unexpected : Start

abbrev pub start_of_char : ℕ → Start
start_of_char c =
    if c == b'{'
    then object_start
    else if c == b'['
    then array_start
    else if c == b'"'
    then string_start
    else if c == b'-' || is_decimal c
    then number_start
    else unexpected

abbrev pub literal_or : JsonValue → Option Text → Start → Start
literal_or v (some rest) otherwise = literal v rest
literal_or v none otherwise = otherwise

abbrev pub null_token : Text
null_token = codes "null"

abbrev pub true_token : Text
true_token = codes "true"

abbrev pub false_token : Text
false_token = codes "false"

-- The tests of `ParseValue`, in their order.
unfoldable pub start_of : Text → Start
start_of s = literal_or null_value (match_token null_token s) (
    literal_or (boolean true) (match_token true_token s)
      (literal_or (boolean false) (match_token false_token s) (start_of_char (peek s))))

abbrev pub Parsed : Type 0 → Type 0
Parsed A = Result JsonError (A × Text)

-- A member of an object: its key, the colon and its value.
unfoldable pub parse_member : (Text → Parsed JsonValue) → Text → Parsed (Text × JsonValue)
unfolding parse_string skip_whitespace
parse_member value s =
    (parse_string (skip_whitespace s) >>= λ key. consume b':' (skip_whitespace key.1) >>= λ rest.
    value rest >>= λ parsed. ok ((key.0, parsed.0), parsed.1))

-- The loop of `ParseObject`, on fuel.
unfoldable pub parse_members :
    ℕ
    → (Text → Parsed JsonValue)
    → List (Text × JsonValue)
    → Text
    → Parsed (List (Text × JsonValue))
unfolding parse_member skip_whitespace
parse_members zero value found s = err out_of_fuel
parse_members (suc fuel) value found s =
    (parse_member value s >>= λ parsed. elim (peek (skip_whitespace parsed.1) == b'}') [
      | true ↦ consume b'}' (skip_whitespace parsed.1) >>= λ rest.
          ok (emplace_key same_text less_text parsed.0.0 parsed.0.1 found, rest)
      | false ↦ consume b',' (skip_whitespace parsed.1) >>= λ rest.
          parse_members fuel value (emplace_key same_text less_text parsed.0.0 parsed.0.1 found)
            rest
    ])

-- `ParseObject`
unfoldable pub parse_object :
    ℕ → (Text → Parsed JsonValue) → Text → Parsed (List (Text × JsonValue))
unfolding parse_members skip_whitespace
parse_object fuel value s =
    (consume b'{' s >>= λ inside. elim (peek (skip_whitespace inside) == b'}') [
      | true ↦ consume b'}' (skip_whitespace inside) >>= λ rest. ok ([], rest)
      | false ↦ parse_members fuel value [] (skip_whitespace inside)
    ])

abbrev pub with_item : JsonValue → Parsed (List JsonValue) → Parsed (List JsonValue)
with_item v (err e) = err e
with_item v (ok (vs, rest)) = ok (v ∷ vs, rest)

-- The loop of `ParseArray`, on fuel.
unfoldable pub parse_items : ℕ → (Text → Parsed JsonValue) → Text → Parsed (List JsonValue)
unfolding skip_whitespace
parse_items zero value s = err out_of_fuel
parse_items (suc fuel) value s =
    (value s >>= λ parsed. elim (peek (skip_whitespace parsed.1) == b']') [
      | true ↦ consume b']' (skip_whitespace parsed.1) >>= λ rest. ok (parsed.0 ∷ [], rest)
      | false ↦ consume b',' (skip_whitespace parsed.1) >>= λ rest.
          with_item parsed.0 (parse_items fuel value rest)
    ])

-- `ParseArray`
unfoldable pub parse_array : ℕ → (Text → Parsed JsonValue) → Text → Parsed (List JsonValue)
unfolding parse_items skip_whitespace
parse_array fuel value s =
    (consume b'[' s >>= λ inside. elim (peek (skip_whitespace inside) == b']') [
      | true ↦ consume b']' (skip_whitespace inside) >>= λ rest. ok ([], rest)
      | false ↦ parse_items fuel value (skip_whitespace inside)
    ])

abbrev pub map_value : {A : Type 0} → (A → JsonValue) → Parsed A → Parsed JsonValue
map_value f (err e) = err e
map_value f (ok (a, rest)) = ok (f a, rest)

-- `ParseValue`, on fuel.
unfoldable pub parse_value : ℕ → Text → Parsed JsonValue
unfolding start_of parse_object parse_array parse_string parse_number skip_whitespace
parse_value zero s = err out_of_fuel
parse_value (suc fuel) s = elim (start_of (skip_whitespace s)) [
  | literal v rest ↦ ok (v, rest)
  | object_start ↦
      map_value (λ ms. object (members_of ms))
        (parse_object fuel (parse_value fuel) (skip_whitespace s))
  | array_start ↦
      map_value (λ vs. array (items_of vs))
        (parse_array fuel (parse_value fuel) (skip_whitespace s))
  | string_start ↦ map_value string (parse_string (skip_whitespace s))
  | number_start ↦ map_value number (parse_number (skip_whitespace s))
  | unexpected ↦ err unexpected_character
]

-- `JsonParser::Parse`, with fuel for as many values inside one another, and side by side, as there
-- are characters.
unfoldable pub parse : Text → Result JsonError JsonValue
unfolding parse_value skip_whitespace
parse s =
    (parse_value (suc (length s)) (skip_whitespace s) >>= λ parsed.
    throw_if (not (null (skip_whitespace parsed.1))) extra_data >> ok parsed.0)
