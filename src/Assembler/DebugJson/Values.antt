-- ===== src/Assembler/DebugJson/Values.antt =====
-- Numbers and addresses that EncodeDebugJson writes and the loader reads:
-- assembler/src/cartridge.cpp and sim/src/debug_symbols.cpp.
use irata.Prelude.{
  Text, ℕ, suc, ◌^◌, ◌≤◌, ◌<◌, ◌≡◌, refl, sym, ap, ◌∙◌, Bool, true, false, not, none, some, [], ◌∷◌,
  ◌++◌, leb, ◌==◌, ok, err, if◌then◌else◌, ◌>>◌, ◌>>=◌, throw_if, arith,
}
use irata.Prelude.Int.{ℤ, pos}
use irata.Prelude.Digits.{
  digit_of, scan, write_number, is_digit, IsWritten, scan_stop, scan-write_number,
  write_number-append, write_number-head, write_number-IsWritten,
}
use irata.Sim.Json.{
  JsonValue, plain, with_char, string_body, parse_string, skip_whitespace, is_space, peek,
  is_decimal, Start, literal, object_start, array_start, string_start, unexpected, number_start,
  start_of, unexpected_character, object, array, string, number, members_of, items_of, parse_object,
  parse_array, stoll, parse_digits, parse_number, number_out_of_range, invalid_number, Parsed,
  map_value, parse_value,
}
use irata.Sim.DebugSymbols.{
  is_hex, skip_spaces, skip_prefix, split_sign, stoul_digits, stoul, hex_word, parse_hex_word,
}
use irata.Assembler.DebugJson.{write_string, write_decimal, write_address}
use irata.Assembler.DebugJson.Strings.{string_body-plain, parse_string-write_string}

-- An address as text.
abbrev pub address_text : ℕ → Text
address_text w = b'0' ∷ b'x' ∷ write_number 16 w []

is_digit-plain : (c : ℕ) → is_digit 16 c ≡ true → ((c == b'"') ≡ false) × ((c == b'\\') ≡ false)
is_digit-plain c h = ground arith

string_body-IsWritten :
    (s rest : Text) → IsWritten 16 s → string_body plain (s ++ (b'"' ∷ rest)) ≡ ok (s, rest)
unfolding string_body
string_body-IsWritten [] rest h = refl
string_body-IsWritten (c ∷ cs) rest h =
    let ok_char = is_digit-plain c h.0 in
    string_body-plain c (cs ++ (b'"' ∷ rest)) ok_char.0 ok_char.1
    ∙ ap (with_char c) (string_body-IsWritten cs rest h.1)

pub parse_string-write_address :
    (w : ℕ) (rest : Text) → parse_string (write_address w rest) ≡ ok (address_text w, rest)
unfolding parse_string write_address
parse_string-write_address w rest =
    ap (λ (s : Text). string_body plain (b'0' ∷ b'x' ∷ s)) (write_number-append 16 w (b'"' ∷ rest))
    ∙ string_body-plain b'0' (b'x' ∷ (write_number 16 w [] ++ (b'"' ∷ rest))) refl refl
    ∙ ap (with_char b'0') (
        string_body-plain b'x' (write_number 16 w [] ++ (b'"' ∷ rest)) refl refl
        ∙ ap (with_char b'x') (
            string_body-IsWritten (write_number 16 w []) rest
              (write_number-IsWritten 16 w (omega arith) (omega arith))))

is_hex-is_digit : (c : ℕ) → is_digit 16 c ≡ true → is_hex c ≡ true
unfolding is_hex digit_of
is_hex-is_digit c h = ground arith

skip_spaces-IsWritten : (s : Text) → IsWritten 16 s → skip_spaces s ≡ s
unfolding skip_spaces
skip_spaces-IsWritten [] h = refl
skip_spaces-IsWritten (c ∷ cs) (h, g) = ground (arith, h)

split_sign-IsWritten : (s : Text) → IsWritten 16 s → split_sign s ≡ (false, s)
split_sign-IsWritten [] h = refl
split_sign-IsWritten (c ∷ cs) (h, g) = ground (arith, h)

skip_prefix-IsWritten : (s : Text) → IsWritten 16 s → skip_prefix s ≡ s
unfolding skip_prefix
skip_prefix-IsWritten [] h = refl
skip_prefix-IsWritten (a ∷ []) h = refl
skip_prefix-IsWritten (a ∷ b ∷ []) h = refl
skip_prefix-IsWritten (a ∷ b ∷ c ∷ cs) (h, (g, k)) = ground (arith, g)

pub scan-written :
    (base n : ℕ) → 2 ≤ base → base ≤ 16 → scan base 0 (write_number base n []) ≡ (n, [])
unfolding scan
scan-written base n h g = scan-write_number base n [] h g

stoul_digits-written : (w : ℕ) → w < 65536 → stoul_digits false (write_number 16 w []) ≡ some w
unfolding stoul_digits
stoul_digits-written w h =
    let head = write_number-head 16 w [] (omega arith) (omega arith) in
    let value : (scan 16 0 (write_number 16 w [])).0 ≡ w =
      ap (λ (p : ℕ × Text). p.0) (scan-written 16 w (omega arith) (omega arith)) in
    let first : is_hex (peek (write_number 16 w [])) ≡ true =
      ap (λ (s : Text). is_hex (peek s)) head.3 ∙ is_hex-is_digit head.0 head.2 in
    ground (arith, value, first, h)

pub parse_hex_word-address_text : (w : ℕ) → w < 65536 → parse_hex_word (address_text w) ≡ ok w
unfolding parse_hex_word stoul
parse_hex_word-address_text w h =
    let text = write_number 16 w [] in
    let written = write_number-IsWritten 16 w (omega arith) (omega arith) in
    let spaces : skip_spaces text ≡ text = skip_spaces-IsWritten text written in
    let signed : split_sign (skip_spaces text) ≡ (false, text) =
      ap split_sign spaces ∙ split_sign-IsWritten text written in
    let found : stoul text ≡ some w =
      ap (λ (p : Bool × Text). stoul_digits p.0 (skip_prefix p.1)) signed
      ∙ ap (stoul_digits false) (skip_prefix-IsWritten text written)
      ∙ stoul_digits-written w h in
    ap hex_word found ∙ in_range
  where
    in_range : hex_word (some w) ≡ ok w
    in_range = ground (arith, h)

is_digit-decimal :
    (d : ℕ)
    → is_digit 10 d ≡ true
    → (is_decimal d ≡ true) × ((d == b'-') ≡ false) × (is_space d ≡ false)
is_digit-decimal d h = (ground (arith, h), ground (arith, h), ground (arith, h))

skip_whitespace-digit : (d : ℕ) (s : Text) → is_digit 10 d ≡ true → skip_whitespace (d ∷ s) ≡ d ∷ s
unfolding skip_whitespace
skip_whitespace-digit d s h = rw ((is_digit-decimal d h).2) refl

start_of-digit : (d : ℕ) (s : Text) → is_digit 10 d ≡ true → start_of (d ∷ s) ≡ number_start
unfolding start_of
start_of-digit d s h = ground (arith, h)

-- A number behind its range check.
abbrev ranged : ℕ × Text → Parsed ℤ
ranged p = stoll false p.0 >>= λ value. ok (value, p.1)

-- What `ParseValue` makes of the start it finds.
abbrev started : ℕ → Text → Start → Parsed JsonValue
unfolding parse_value
started fuel s start = elim start [
  | literal v rest ↦ ok (v, rest)
  | object_start ↦ map_value (λ ms. object (members_of ms)) (parse_object fuel (parse_value fuel) s)
  | array_start ↦ map_value (λ vs. array (items_of vs)) (parse_array fuel (parse_value fuel) s)
  | string_start ↦ map_value string (parse_string s)
  | number_start ↦ map_value number (parse_number s)
  | unexpected ↦ err unexpected_character
]

parse_number-write_decimal :
    (n c : ℕ) (rest : Text)
    → n < 2 ^ 63
    → digit_of 10 c ≡ none
    → parse_number (write_decimal n (c ∷ rest)) ≡ ok (pos n, c ∷ rest)
unfolding parse_number parse_digits write_decimal
parse_number-write_decimal n c rest h stop =
    let head = write_number-head 10 n (c ∷ rest) (omega arith) (omega arith) in
    let decimal = is_digit-decimal head.0 head.2 in
    let scanned : scan 10 0 (head.0 ∷ head.1) ≡ (n, c ∷ rest) =
      ap (scan 10 0) (sym head.3)
      ∙ scan-write_number 10 n (c ∷ rest) (omega arith) (omega arith)
      ∙ scan_stop 10 n c rest stop in
    ap parse_number head.3 ∙ read head.0 head.1 decimal.0 decimal.1 scanned
  where
    read :
        (d : ℕ) (s : Text)
        → is_decimal d ≡ true
        → (d == b'-') ≡ false
        → scan 10 0 (d ∷ s) ≡ (n, c ∷ rest)
        → parse_number (d ∷ s) ≡ ok (pos n, c ∷ rest)
    read d s p q e =
        ap (λ (b : Bool). if b then parse_digits true s else parse_digits false (d ∷ s)) q
        ∙ ap (λ (b : Bool). throw_if (not b) invalid_number >> ranged (scan 10 0 (d ∷ s))) p
        ∙ ap ranged e
        ∙ ap
            (λ (b : Bool).
              throw_if b number_out_of_range >> ok (pos n) >>= λ value. ok (value, c ∷ rest))
            in_range
      where
        in_range : leb (2 ^ 63) n ≡ false
        in_range = ground (arith, h)

module _ (fuel : ℕ) where
  pub parse_value-write_string :
      (s rest : Text) → parse_value (suc fuel) (write_string s rest) ≡ ok (string s, rest)
  unfolding parse_value write_string start_of skip_whitespace
  parse_value-write_string s rest = ap (map_value string) (parse_string-write_string s rest)

  pub parse_value-write_address :
      (w : ℕ) (rest : Text)
      → parse_value (suc fuel) (write_address w rest) ≡ ok (string (address_text w), rest)
  unfolding parse_value write_address start_of skip_whitespace
  parse_value-write_address w rest = ap (map_value string) (parse_string-write_address w rest)

  pub parse_value-write_decimal :
      (n c : ℕ) (rest : Text)
      → n < 2 ^ 63
      → digit_of 10 c ≡ none
      → parse_value (suc fuel) (write_decimal n (c ∷ rest)) ≡ ok (number (pos n), c ∷ rest)
  unfolding parse_value write_decimal
  parse_value-write_decimal n c rest h stop =
      let head = write_number-head 10 n (c ∷ rest) (omega arith) (omega arith) in
      let skipped : skip_whitespace (write_decimal n (c ∷ rest)) ≡ write_decimal n (c ∷ rest) =
        ap skip_whitespace head.3 ∙ skip_whitespace-digit head.0 head.1 head.2 ∙ sym head.3 in
      let start : start_of (skip_whitespace (write_decimal n (c ∷ rest))) ≡ number_start =
        ap start_of (skipped ∙ head.3) ∙ start_of-digit head.0 head.1 head.2 in
      ap (started fuel (skip_whitespace (write_decimal n (c ∷ rest)))) start
      ∙ ap (λ (s : Text). map_value number (parse_number s)) skipped
      ∙ ap (map_value number) (parse_number-write_decimal n c rest h stop)
