-- ===== src/Sim/Json/Ends.antt =====
-- The JSON parser ends: the loops of sim/src/debug_symbols.cpp.
use irata.Prelude.{
  Text, ℕ, zero, suc, ◌+◌, ◌-◌, ◌≤◌, ◌<◌, ◌≡◌, ◌≢◌, refl, sym, ap, Bool, true, false, not, ◌||◌,
  Option, none, some, List, [], same_text, less_text, ◌∷◌, length, null, ◌==◌, if◌then◌else◌,
  if_both, ok, err, ◌>>=◌, ◌>>◌, throw_if, arith,
}
use irata.Prelude.Maps.{emplace_key}
use irata.Prelude.Int.{ℤ}
use irata.Prelude.Digits.{digit_of, scan, scan-length}
use irata.Sim.Json.{
  JsonError, extra_data, unexpected_character, unexpected_token, number_out_of_range, out_of_fuel,
  JsonValue, members_of, items_of, is_space, skip_whitespace, peek, boolean, null_value, literal_or,
  null_token, true_token, false_token, is_decimal, consume, match_token, StringState, plain, escape,
  unicode, StringStep, closes, adds, waits, fails, string_step, unicode_step, with_char, string_end,
  string_body, parse_string, parse_digits, parse_number, Start, literal, object_start, array_start,
  string_start, number_start, unexpected, start_of, start_of_char, Parsed, parse_member,
  parse_members, parse_object, with_item, parse_items, parse_array, map_value, parse_value, parse,
}

abbrev is_fuel : JsonError → Bool
is_fuel out_of_fuel = true
is_fuel _ = false

-- An error of the code, or a value with at most `n` characters behind it.
data Left {A : Type 0} (n : ℕ) : Parsed A → Type 0 where
  failed : (e : JsonError) → is_fuel e ≡ false → Left n (err e)
  left : (p : A × Text) → length p.1 ≤ n → Left n (ok p)

Left-bind :
    {A B : Type 0} {m n : ℕ} {r : Parsed A} {k : A × Text → Parsed B}
    → Left m r
    → ((p : A × Text) → length p.1 ≤ m → Left n (k p))
    → Left n (r >>= k)
Left-bind (failed e h) f = failed e h
Left-bind (left p h) f = f p h

Left-le : {A : Type 0} (m n : ℕ) {r : Parsed A} → m ≤ n → Left m r → Left n r
Left-le m n h (failed e g) = failed e g
Left-le m n h (left p g) = left p (omega (arith, h, g))

Left-guard :
    {A : Type 0} {n : ℕ} (b : Bool) (e : JsonError) {k : Parsed A}
    → is_fuel e ≡ false
    → Left n k
    → Left n (throw_if b e >> k)
Left-guard true e h f = failed e h
Left-guard false e h f = f

Left-consume :
    {A : Type 0} {n : ℕ} (c : ℕ) (s : Text) {k : Text → Parsed A}
    → ((rest : Text) → length rest + 1 ≤ length s → Left n (k rest))
    → Left n (consume c s >>= k)
Left-consume c [] f = failed _ refl
Left-consume {n = n} c (d ∷ s) {k} f = at (not (d == c))
  where
    at : (b : Bool) → Left n ((throw_if b unexpected_token >> ok s) >>= k)
    at true = failed _ refl
    at false = f s (omega arith)

Left-test :
    {A : Type 0} {n : ℕ} (b : Bool) {yes no : Parsed A}
    → Left n yes
    → Left n no
    → Left n (elim b [ true ↦ yes | false ↦ no ])
Left-test true y z = y
Left-test false y z = z

skip_whitespace-le : (s : Text) → length (skip_whitespace s) ≤ length s
unfolding skip_whitespace
skip_whitespace-le [] = omega arith
skip_whitespace-le (c ∷ s) =
    if_both (λ (t : Text). length t ≤ suc (length s)) (is_space c)
      (omega (arith, skip_whitespace-le s)) (omega arith)

-- A step of a string fails with an error of the code.
abbrev StepFails : StringStep → Type 0
StepFails (fails e) = is_fuel e ≡ false
StepFails step = Unit

string_step-fails :
    (state : StringState) (c : ℕ) (rest : Text) → StepFails (string_step state c rest)
unfolding string_step
string_step-fails plain c rest = ground arith
string_step-fails escape c rest = ground arith
string_step-fails (unicode digits value) c rest = at (digit_of 16 c)
  where
    at : (d : Option ℕ) → StepFails (unicode_step digits value d)
    at none = refl
    at (some d) = ground arith

with_char-Left : (d n : ℕ) {r : Parsed Text} → Left n r → Left n (with_char d r)
with_char-Left d n (failed e h) = failed e h
with_char-Left d n (left p h) = left (d ∷ p.0, p.1) h

string_end-is_fuel : (state : StringState) → is_fuel (string_end state) ≡ false
string_end-is_fuel plain = refl
string_end-is_fuel escape = refl
string_end-is_fuel (unicode digits value) = refl

string_body-Left : (state : StringState) (s : Text) → Left (length s) (string_body state s)
unfolding string_body
string_body-Left state [] = failed _ (string_end-is_fuel state)
string_body-Left state (c ∷ s) =
    at (string_step state c s) (string_step-fails state c s) (λ next. string_body-Left next s)
  where
    at :
        (step : StringStep)
        → StepFails step
        → ((next : StringState) → Left (length s) (string_body next s))
        → Left (suc (length s)) (elim step [
          | closes ↦ ok ([], s)
          | adds d ↦ with_char d (string_body plain s)
          | waits next ↦ string_body next s
          | fails e ↦ err e
        ])
    at closes h ih = left _ (omega arith)
    at (adds d) h ih =
        Left-le (length s) (suc (length s)) (omega arith) (with_char-Left d (length s) (ih plain))
    at (waits next) h ih = Left-le (length s) (suc (length s)) (omega arith) (ih next)
    at (fails e) h ih = failed e h

parse_string-Left : (s : Text) → Left (length s - 1) (parse_string s)
unfolding parse_string
parse_string-Left s = Left-consume b'"' s (λ rest h.
    Left-le (length rest) (length s - 1) (omega (arith, h)) (string_body-Left plain rest))

-- A number's range check.
Left-range :
    {n : ℕ} (b : Bool) (z : ℤ) (rest : Text)
    → length rest ≤ n
    → Left n ((throw_if b number_out_of_range >> ok z) >>= λ value. ok (value, rest))
Left-range true z rest h = failed _ refl
Left-range false z rest h = left _ h

parse_digits-Left : (negative : Bool) (s : Text) → Left (length s) (parse_digits negative s)
unfolding parse_digits
parse_digits-Left true s = Left-guard _ _ refl (Left-range _ _ (scan 10 0 s).1 (scan-length 10 0 s))
parse_digits-Left false s =
    Left-guard _ _ refl (Left-range _ _ (scan 10 0 s).1 (scan-length 10 0 s))

parse_number-Left : (s : Text) → Left (length s) (parse_number s)
unfolding parse_number
parse_number-Left [] = failed _ refl
parse_number-Left (c ∷ s) =
    if_both (λ (r : Parsed ℤ). Left (suc (length s)) r) (c == b'-')
      (Left-le (length s) (suc (length s)) (omega arith) (parse_digits-Left true s))
      (parse_digits-Left false (c ∷ s))

map_value-Left :
    {A : Type 0} (f : A → JsonValue) (n : ℕ) {r : Parsed A} → Left n r → Left n (map_value f r)
map_value-Left f n (failed e h) = failed e h
map_value-Left f n (left p h) = left (f p.0, p.1) h

with_item-Left :
    (v : JsonValue) (n : ℕ) {r : Parsed (List JsonValue)} → Left n r → Left n (with_item v r)
with_item-Left v n (failed e h) = failed e h
with_item-Left v n (left p h) = left (v ∷ p.0, p.1) h

module _ (n : ℕ) (value : Text → Parsed JsonValue)
    (value-Left : (s : Text) → length s < n → Left (length s) (value s)) where
  parse_member-Left : (s : Text) → length s < n → Left (length s - 1) (parse_member value s)
  unfolding parse_member
  parse_member-Left s h =
      let skipped = skip_whitespace-le s in
      Left-bind (parse_string-Left (skip_whitespace s)) (λ key g.
        Left-consume b':' (skip_whitespace key.1) (λ rest f.
          let fewer : length rest + 2 ≤ length s =
            omega (arith, skipped, g, f, skip_whitespace-le key.1) in
          Left-bind (value-Left rest (omega (arith, fewer, h)))
            (λ parsed e. left _ (omega (arith, e, fewer)))))

  parse_members-Left :
      (fuel : ℕ) (found : List (Text × JsonValue)) (s : Text)
      → length s < n
      → length s < fuel
      → Left (length s) (parse_members fuel value found s)
  unfolding parse_members
  parse_members-Left zero found s h g = absurd (omega arith)
  parse_members-Left (suc fuel) found s h g = Left-bind (parse_member-Left s h) (λ parsed f.
      let skipped = skip_whitespace-le parsed.1 in
      Left-test _
        (Left-consume b'}' (skip_whitespace parsed.1)
          (λ rest e. left _ (omega (arith, skipped, f, e))))
        (Left-consume b',' (skip_whitespace parsed.1) (λ rest e.
          Left-le (length rest) (length s) (omega (arith, skipped, f, e)) (
            parse_members-Left fuel (emplace_key same_text less_text parsed.0.0 parsed.0.1 found)
              rest (omega (arith, skipped, f, e, h)) (omega (arith, skipped, f, e, g))))))

  parse_object-Left :
      (fuel : ℕ) (s : Text)
      → length s < suc n
      → length s < suc fuel
      → Left (length s) (parse_object fuel value s)
  unfolding parse_object
  parse_object-Left fuel s h g = Left-consume b'{' s (λ inside f.
      let skipped = skip_whitespace-le inside in
      Left-test _
        (Left-consume b'}' (skip_whitespace inside)
          (λ rest e. left _ (omega (arith, skipped, f, e))))
        (Left-le (length (skip_whitespace inside)) (length s) (omega (arith, skipped, f)) (
          parse_members-Left fuel [] (skip_whitespace inside) (omega (arith, skipped, f, h))
            (omega (arith, skipped, f, g)))))

  parse_items-Left :
      (fuel : ℕ) (s : Text)
      → length s < n
      → length s < fuel
      → Left (length s) (parse_items fuel value s)
  unfolding parse_items
  parse_items-Left zero s h g = absurd (omega arith)
  parse_items-Left (suc fuel) s h g = Left-bind (value-Left s h) (λ parsed f.
      let skipped = skip_whitespace-le parsed.1 in
      Left-test _
        (Left-consume b']' (skip_whitespace parsed.1)
          (λ rest e. left _ (omega (arith, skipped, f, e))))
        (Left-consume b',' (skip_whitespace parsed.1) (λ rest e.
          Left-le (length rest) (length s) (omega (arith, skipped, f, e)) (
            with_item-Left parsed.0 (length rest) (
              parse_items-Left fuel rest (omega (arith, skipped, f, e, h))
                (omega (arith, skipped, f, e, g)))))))

  parse_array-Left :
      (fuel : ℕ) (s : Text)
      → length s < suc n
      → length s < suc fuel
      → Left (length s) (parse_array fuel value s)
  unfolding parse_array
  parse_array-Left fuel s h g = Left-consume b'[' s (λ inside f.
      let skipped = skip_whitespace-le inside in
      Left-test _
        (Left-consume b']' (skip_whitespace inside)
          (λ rest e. left _ (omega (arith, skipped, f, e))))
        (Left-le (length (skip_whitespace inside)) (length s) (omega (arith, skipped, f)) (
          parse_items-Left fuel (skip_whitespace inside) (omega (arith, skipped, f, h))
            (omega (arith, skipped, f, g)))))

-- A literal leaves at most the text it was found in.
abbrev StartLeft : ℕ → Start → Type 0
StartLeft n (literal v rest) = length rest ≤ n
StartLeft n start = Unit

-- A token that is matched leaves at most the text it was found in.
abbrev MatchLeft : ℕ → Option Text → Type 0
MatchLeft n none = Unit
MatchLeft n (some rest) = length rest ≤ n

match_token-MatchLeft : (token s : Text) → MatchLeft (length s) (match_token token s)
match_token-MatchLeft [] s = omega arith
match_token-MatchLeft (t ∷ ts) [] = tt
match_token-MatchLeft (t ∷ ts) (c ∷ cs) =
    if_both (MatchLeft (suc (length cs))) (c == t)
      (longer (match_token ts cs) (match_token-MatchLeft ts cs)) tt
  where
    longer : (o : Option Text) → MatchLeft (length cs) o → MatchLeft (suc (length cs)) o
    longer none h = tt
    longer (some rest) h = omega (arith, h)

StartLeft-literal :
    (n : ℕ) (v : JsonValue) (found : Option Text) (otherwise : Start)
    → MatchLeft n found
    → StartLeft n otherwise
    → StartLeft n (literal_or v found otherwise)
StartLeft-literal n v none otherwise h g = g
StartLeft-literal n v (some rest) otherwise h g = h

start_of_char-StartLeft : (n c : ℕ) → StartLeft n (start_of_char c)
start_of_char-StartLeft n c = if_both (StartLeft n) (c == b'{') tt (
    if_both (StartLeft n) (c == b'[') tt
      (if_both (StartLeft n) (c == b'"') tt (last (c == b'-' || is_decimal c))))
  where
    last : (b : Bool) → StartLeft n (if b then number_start else unexpected)
    last true = tt
    last false = tt

start_of-StartLeft : (s : Text) → StartLeft (length s) (start_of s)
unfolding start_of
start_of-StartLeft s =
    let char = start_of_char (peek s) in
    let no_true = literal_or (boolean false) (match_token false_token s) char in
    let no_null = literal_or (boolean true) (match_token true_token s) no_true in
    let n = length s in
    StartLeft-literal n null_value (match_token null_token s) no_null
      (match_token-MatchLeft null_token s)
      (StartLeft-literal n (boolean true) (match_token true_token s) no_true
        (match_token-MatchLeft true_token s)
        (StartLeft-literal n (boolean false) (match_token false_token s) char
          (match_token-MatchLeft false_token s) (start_of_char-StartLeft n (peek s))))

parse_value-Left : (fuel : ℕ) (s : Text) → length s < fuel → Left (length s) (parse_value fuel s)
unfolding parse_value
parse_value-Left zero s h = absurd (omega arith)
parse_value-Left (suc fuel) s h =
    let skipped = skip_whitespace-le s in
    Left-le (length (skip_whitespace s)) (length s) skipped (
      at (start_of (skip_whitespace s)) (start_of-StartLeft (skip_whitespace s))
        (omega (arith, skipped, h)) (λ t g. parse_value-Left fuel t g))
  where
    at :
        (start : Start)
        → StartLeft (length (skip_whitespace s)) start
        → length (skip_whitespace s) < suc fuel
        → ((t : Text) → length t < fuel → Left (length t) (parse_value fuel t))
        → Left (length (skip_whitespace s)) (elim start [
          | literal v rest ↦ ok (v, rest)
          | object_start ↦
              map_value
                (λ ms. JsonValue.object (members_of ms))
                (parse_object fuel (parse_value fuel) (skip_whitespace s))
          | array_start ↦
              map_value
                (λ vs. JsonValue.array (items_of vs))
                (parse_array fuel (parse_value fuel) (skip_whitespace s))
          | string_start ↦ map_value JsonValue.string (parse_string (skip_whitespace s))
          | number_start ↦ map_value JsonValue.number (parse_number (skip_whitespace s))
          | unexpected ↦ err unexpected_character
        ])
    at (literal v rest) g k ih = left _ g
    at object_start g k ih =
        map_value-Left _ _
          (parse_object-Left fuel (parse_value fuel) ih fuel (skip_whitespace s) k k)
    at array_start g k ih =
        map_value-Left _ _
          (parse_array-Left fuel (parse_value fuel) ih fuel (skip_whitespace s) k k)
    at string_start g k ih = map_value-Left JsonValue.string (length (skip_whitespace s)) (
        Left-le (length (skip_whitespace s) - 1) (length (skip_whitespace s)) (omega arith)
          (parse_string-Left (skip_whitespace s)))
    at number_start g k ih = map_value-Left _ _ (parse_number-Left (skip_whitespace s))
    at unexpected g k ih = failed _ refl

-- The parser ends on every text: its loops never run out of the fuel of one round for each character
-- and one more, so `Parse` returns a value or throws an error of the code.
pub parse-Stops : (s : Text) → parse s ≢ err out_of_fuel
unfolding parse
parse-Stops s same =
    at (parse_value-Left (suc (length s)) (skip_whitespace s) (omega (arith, skip_whitespace-le s)))
      same
  where
    clash : {b : Bool} → b ≡ true → b ≡ false → ⊥
    clash p q = cc

    extra : (b : Bool) (v : JsonValue) → (throw_if b extra_data >> ok v) ≢ err out_of_fuel
    extra true v h = let same : extra_data ≡ out_of_fuel = cc in clash refl (sym (ap is_fuel same))
    extra false v h = cc

    at :
        {n : ℕ} {r : Parsed JsonValue}
        → Left n r
        → (r >>= λ parsed.
            throw_if (not (null (skip_whitespace parsed.1))) extra_data >> ok parsed.0)
          ≢ err out_of_fuel
    at (failed e h) h' = let same : e ≡ out_of_fuel = cc in clash (ap is_fuel same) h
    at (left p h) h' = extra _ p.0 h'
