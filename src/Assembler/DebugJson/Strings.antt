-- ===== src/Assembler/DebugJson/Strings.antt =====
-- Strings that EscapeJson writes and the JSON parser reads: assembler/src/cartridge.cpp and
-- sim/src/debug_symbols.cpp.
use irata.Prelude.{
  Text, ℕ, ◌+◌, ◌*◌, ◌/◌, ◌%◌, ◌≤◌, ◌<◌, ◌≡◌, refl, sym, ap, ◌∙◌, Bool, true, false, Option, some,
  [], ◌∷◌, length, ltb, ltb→lt, ◌==◌, ==→eq, ok, err, Result, if◌then◌else◌, arith,
}
use irata.Prelude.Digits.{digit_char, digit_of-digit_char}
use irata.Sim.Json.{
  JsonError, plain, escape, unicode, StringStep, closes, adds, waits, fails, string_step,
  escape_step, unicode_step, unicode_char, with_char, string_body, parse_string,
}
use irata.Assembler.DebugJson.{escape_char, escape_json, write_control, write_string}

-- What a step makes of the rest of the text.
abbrev stepped : Text → StringStep → Result JsonError (Text × Text)
unfolding string_body
stepped cs step = elim step [
  | closes ↦ ok ([], cs)
  | adds d ↦ with_char d (string_body plain cs)
  | waits next ↦ string_body next cs
  | fails e ↦ err e
]

string_body-unicode :
    (s : Text) → 4 ≤ length s → string_body escape (b'u' ∷ s) ≡ string_body (unicode 4 0) s
unfolding string_body string_step
string_body-unicode s h = ap (stepped s) (enough (ltb (length s) 4) refl)
  where
    enough : (b : Bool) → ltb (length s) 4 ≡ b → escape_step b'u' s ≡ waits (unicode 4 0)
    enough true short = absurd (omega (arith, h, ltb→lt (length s) 4 short))
    enough false long = rw long refl

string_body-digit :
    (digits value d : ℕ) (s : Text)
    → d < 16
    → string_body (unicode digits value) (digit_char d ∷ s)
      ≡ stepped s (unicode_step digits value (some d))
unfolding string_body string_step
string_body-digit digits value d s h =
    ap (λ (o : Option ℕ). stepped s (unicode_step digits value o))
      (digit_of-digit_char 16 d (omega arith) h)

string_body-write_control :
    (c : ℕ) (out : Text)
    → c < 32
    → string_body plain (write_control c out) ≡ with_char c (string_body plain out)
unfolding string_body
string_body-write_control c out h =
    string_body-unicode (b'0' ∷ b'0' ∷ digit_char (c / 16) ∷ digit_char (c % 16) ∷ out)
      (omega arith)
    ∙ string_body-digit 2 0 (c / 16) (digit_char (c % 16) ∷ out) (omega (arith, h))
    ∙ string_body-digit 1 (0 * 16 + c / 16) (c % 16) out (omega arith)
    ∙ ap (λ (d : ℕ). with_char d (string_body plain out)) value
  where
    value : unicode_char ((0 * 16 + c / 16) * 16 + c % 16) ≡ c
    value = ground (arith, h)

pub string_body-plain :
    (c : ℕ) (out : Text)
    → (c == b'"') ≡ false
    → (c == b'\\') ≡ false
    → string_body plain (c ∷ out) ≡ with_char c (string_body plain out)
unfolding string_body string_step
string_body-plain c out h g = ap (stepped out) step
  where
    step : string_step plain c out ≡ adds c
    step = rw (h, g) refl

string_body-escape_char :
    (c : ℕ) (out : Text)
    → string_body plain (escape_char c out) ≡ with_char c (string_body plain out)
unfolding string_body
string_body-escape_char c out =
    at (c == b'"') refl (c == b'\\') refl (c == b'\n') refl (c == b'\r') refl (c == b'\t') refl
      (ltb c 0x20) refl
  where
    Read : Text → Type 0
    Read s = string_body plain s ≡ with_char c (string_body plain out)

    is :
        (d : ℕ) (s : Text)
        → (c == d) ≡ true
        → string_body plain s ≡ with_char d (string_body plain out)
        → Read s
    is d s h e = e ∙ ap (λ (x : ℕ). with_char x (string_body plain out)) (sym (==→eq c d h))

    at :
        (quote : Bool)
        → (c == b'"') ≡ quote
        → (backslash : Bool) → (c == b'\\') ≡ backslash
        → (newline : Bool) → (c == b'\n') ≡ newline
        → (return : Bool) → (c == b'\r') ≡ return
        → (tab : Bool) → (c == b'\t') ≡ tab
        → (control : Bool) → ltb c 0x20 ≡ control
        → Read (
            if quote
            then b'\\' ∷ b'"' ∷ out
            else if backslash
            then b'\\' ∷ b'\\' ∷ out
            else if newline
            then b'\\' ∷ b'n' ∷ out
            else if return
            then b'\\' ∷ b'r' ∷ out
            else if tab
            then b'\\' ∷ b't' ∷ out
            else if control
            then write_control c out
            else c ∷ out)
    at true q b _ n _ r _ t _ k _ = is b'"' (b'\\' ∷ b'"' ∷ out) q refl
    at false q true b n _ r _ t _ k _ = is b'\\' (b'\\' ∷ b'\\' ∷ out) b refl
    at false q false b true n r _ t _ k _ = is b'\n' (b'\\' ∷ b'n' ∷ out) n refl
    at false q false b false n true r t _ k _ = is b'\r' (b'\\' ∷ b'r' ∷ out) r refl
    at false q false b false n false r true t k _ = is b'\t' (b'\\' ∷ b't' ∷ out) t refl
    at false q false b false n false r false t true k =
        string_body-write_control c out (ltb→lt c 32 k)
    at false q false b false n false r false t false k = string_body-plain c out q b

-- A string that is escaped reads back, up to its closing quote.
string_body-escape_json :
    (s rest : Text) → string_body plain (escape_json s (b'"' ∷ rest)) ≡ ok (s, rest)
unfolding string_body escape_json
string_body-escape_json [] rest = refl
string_body-escape_json (c ∷ cs) rest =
    string_body-escape_char c (escape_json cs (b'"' ∷ rest))
    ∙ ap (with_char c) (string_body-escape_json cs rest)

pub parse_string-write_string : (s rest : Text) → parse_string (write_string s rest) ≡ ok (s, rest)
unfolding parse_string write_string
parse_string-write_string s rest = string_body-escape_json s rest
