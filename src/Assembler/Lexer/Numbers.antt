-- ===== src/Assembler/Lexer/Numbers.antt =====
-- Number literals: `ParseNumberLiteral` of assembler/src/lexer.cpp.
use irata.Prelude.{
  Text, ℕ, suc, ◌+◌, ◌-◌, ◌*◌, ◌^◌, ◌≤◌, ◌<◌, ◌≡◌, refl, sym, ap, ◌∙◌, Bool, true, false, not, ◌&&◌,
  ◌||◌, some, List, [], ◌∷◌, map, length, null, All, ◌==◌, ltb, leb, if◌then◌else◌, Result, ok,
  ◌>>◌, throw_if, arith, ◌/◌, lt→ltb,
}
use native.Mathlib.Nat.{mod-add-div, add-mul-mod_self_left, pow-suc}
use native.Mathlib.Numerals.{unary_clauses}
use irata.Bits.{u32}
use irata.Assembler.Lexer.{
  LexError, invalid_numeric_literal, strip_hash, split_base, digit_of, parse_digits,
  parse_number_literal,
}

-- The notations of a number.
pub data Notation : Type 0 where
  decimal hexadecimal binary : Notation
  zero_x zero_b : (upper : Bool) → Notation

abbrev pub base_of : Notation → ℕ
base_of decimal = 10
base_of hexadecimal = 16
base_of binary = 2
base_of (zero_x upper) = 16
base_of (zero_b upper) = 2

-- A digit, with whether it is written in upper case.
abbrev pub Digit : Type 0
Digit = Bool × ℕ

abbrev pub digit_char : Digit → ℕ
digit_char d =
    if ltb d.1 10 then b'0' + d.1 else if d.0 then b'A' + (d.1 - 10) else b'a' + (d.1 - 10)

abbrev pub with_prefix : Notation → Text → Text
with_prefix decimal digits = digits
with_prefix hexadecimal digits = b'$' ∷ digits
with_prefix binary digits = b'%' ∷ digits
with_prefix (zero_x upper) digits = b'0' ∷ (if upper then b'X' else b'x') ∷ digits
with_prefix (zero_b upper) digits = b'0' ∷ (if upper then b'B' else b'b') ∷ digits

abbrev pub with_hash : Bool → Text → Text
with_hash false text = text
with_hash true text = b'#' ∷ text

-- The value of a list of digits, the most significant first.
abbrev pub positional : ℕ → List Digit → ℕ
positional base [] = 0
positional base (d ∷ ds) = d.1 * base ^ length ds + positional base ds

digit_of-digit_char : (d : Digit) → d.1 < 16 → digit_of (digit_char d) ≡ some d.1
unfolding digit_of
digit_of-digit_char (upper, d) h = ground (arith, h)

-- A reduction inside a product changes nothing of the reduced sum.
reduced_inside : (x b p : ℕ) → u32 (u32 x * b + p) ≡ u32 (x * b + p)
reduced_inside x b p = sym (
    ap u32 (split (u32 x) (x / 2 ^ 32) (mod-add-div x (2 ^ 32)))
    ∙ add-mul-mod_self_left (u32 x * b + p) (2 ^ 32) (x / 2 ^ 32 * b))
  where
    split : (r q : ℕ) → r + 2 ^ 32 * q ≡ x → x * b + p ≡ r * b + p + 2 ^ 32 * (q * b)
    split r q h =
        let scaled : (r + 2 ^ 32 * q) * b ≡ x * b = ap (λ (t : ℕ). t * b) h in omega (arith, scaled)

next_digit :
    (parsed base d b p : ℕ)
    → u32 (u32 (u32 (parsed * base) + d) * b + p) ≡ u32 ((parsed * base + d) * b + p)
next_digit parsed base d b p =
    reduced_inside (u32 (parsed * base) + d) b p
    ∙ ap u32 (spread (u32 (parsed * base)))
    ∙ reduced_inside (parsed * base) b (d * b + p)
    ∙ ap u32 (sym (spread (parsed * base)))
  where
    spread : (x : ℕ) → (x + d) * b + p ≡ x * b + (d * b + p)
    spread x = omega arith

parse_digits-positional :
    (base parsed : ℕ) (ds : List Digit)
    → base ≤ 16
    → parsed < 2 ^ 32
    → All (λ d. d.1 < base) ds
    → parse_digits base parsed (map digit_char ds)
      ≡ ok (u32 (parsed * base ^ length ds + positional base ds))
unfolding parse_digits
parse_digits-positional base parsed [] h fits small =
    ap ok (omega (arith, ap (λ (t : ℕ). parsed * t) (one_power base)))
  where
    one_power : (b : ℕ) → b ^ 0 ≡ 1
    one_power b = simp unary_clauses refl
parse_digits-positional base parsed (d ∷ ds) h fits small =
    let found = digit_of-digit_char d (omega (arith, h, small.0)) in
    let in_base : leb base d.1 ≡ false = ground (arith, small.0) in
    let ih =
      parse_digits-positional base (u32 (u32 (parsed * base) + d.1)) ds h (omega arith) small.1 in
    rw (found, parse_digits)
      (rw in_base (
        ih
        ∙ ap ok (
            next_digit parsed base d.1 (base ^ length ds) (positional base ds)
            ∙ ap u32 (regroup (length ds)))))
  where
    regroup :
        (n : ℕ)
        → (parsed * base + d.1) * base ^ n + positional base ds
          ≡ parsed * base ^ suc n + (d.1 * base ^ n + positional base ds)
    regroup n = omega (arith, ap (λ (t : ℕ). parsed * t) (pow-suc base n))

decimal_char : (d : Digit) → d.1 < 10 → digit_char d ≡ b'0' + d.1
decimal_char d h = rw (lt→ltb d.1 10 h) refl

no_prefix :
    {A : Type 0} (rest : Text) (b : Bool) (x y z : A)
    → (if not (null rest) && (b && false)
        then x
        else (if not (null rest) && (b && false) then y else z))
      ≡ z
no_prefix [] b x y z = refl
no_prefix (r ∷ rs) true x y z = refl
no_prefix (r ∷ rs) false x y z = refl

-- Two decimal digits are no prefix.
split_base-digits :
    (rest : Text) (c f : ℕ)
    → (b'0' ≤ c) × (c ≤ b'9')
    → (b'0' ≤ f) × (f ≤ b'9')
    → split_base (c ∷ f ∷ rest) ≡ (10, c ∷ f ∷ rest)
unfolding split_base
split_base-digits rest c f h k =
    let no_dollar : (c == b'$') ≡ false = ground arith in
    let no_percent : (c == b'%') ≡ false = ground arith in
    let no_x : (f == b'x' || f == b'X') ≡ false = ground arith in
    let no_b : (f == b'b' || f == b'B') ≡ false = ground arith in
    rw (no_dollar, no_percent, no_x, no_b) (no_prefix rest (c == b'0') _ _ _)

split_base-decimal :
    (ds : List Digit)
    → All (λ d. d.1 < 10) ds
    → split_base (map digit_char ds) ≡ (10, map digit_char ds)
unfolding split_base
split_base-decimal [] h = refl
split_base-decimal (d ∷ []) h = rw (decimal_char d h.0) (ground (arith, h.0))
split_base-decimal (d ∷ e ∷ ds) h =
    split_base-digits (map digit_char ds) (digit_char d) (digit_char e)
      (omega (arith, decimal_char d h.0, h.0)) (omega (arith, decimal_char e h.1.0, h.1.0))

split_base-with_prefix :
    (n : Notation) (d : Digit) (ds : List Digit)
    → All (λ e. e.1 < base_of n) (d ∷ ds)
    → split_base (with_prefix n (map digit_char (d ∷ ds))) ≡ (base_of n, map digit_char (d ∷ ds))
unfolding split_base
split_base-with_prefix decimal d ds h = split_base-decimal (d ∷ ds) h
split_base-with_prefix hexadecimal d ds h = refl
split_base-with_prefix binary d ds h = refl
split_base-with_prefix (zero_x true) d ds h = refl
split_base-with_prefix (zero_x false) d ds h = refl
split_base-with_prefix (zero_b true) d ds h = refl
split_base-with_prefix (zero_b false) d ds h = refl

strip_hash-with_hash :
    (hashed : Bool) (n : Notation) (d : Digit) (ds : List Digit)
    → All (λ e. e.1 < base_of n) (d ∷ ds)
    → strip_hash (with_hash hashed (with_prefix n (map digit_char (d ∷ ds))))
      ≡ with_prefix n (map digit_char (d ∷ ds))
unfolding strip_hash
strip_hash-with_hash true n d ds h = refl
strip_hash-with_hash false hexadecimal d ds h = refl
strip_hash-with_hash false binary d ds h = refl
strip_hash-with_hash false (zero_x upper) d ds h = refl
strip_hash-with_hash false (zero_b upper) d ds h = refl
strip_hash-with_hash false decimal d ds h =
    let other : (digit_char d == b'#') ≡ false = ground (arith, decimal_char d h.0, h.0) in
    rw other refl

-- A literal of at least one digit, decimal, hexadecimal behind `$`, `0x` or `0X`, or binary behind `%`,
-- `0b` or `0B`, each with or without `#` before it and each digit from 10 on in lower or upper case,
-- has the value of its digits in that base, modulo 2^32: a larger literal is no error but is cut.
pub parse_number_literal-positional :
    (hashed : Bool) (n : Notation) (d : Digit) (ds : List Digit)
    → All (λ e. e.1 < base_of n) (d ∷ ds)
    → parse_number_literal (with_hash hashed (with_prefix n (map digit_char (d ∷ ds))))
      ≡ ok (u32 (positional (base_of n) (d ∷ ds)))
unfolding parse_number_literal
parse_number_literal-positional hashed n d ds h =
    ap parsed
      (ap split_base (strip_hash-with_hash hashed n d ds h) ∙ split_base-with_prefix n d ds h)
    ∙ parse_digits-positional (base_of n) 0 (d ∷ ds) (small_base n) (omega arith) h
    ∙ ap ok (ap u32 (omega arith))
  where
    parsed : ℕ × Text → Result LexError ℕ
    parsed found = throw_if (null found.1) invalid_numeric_literal >> parse_digits found.0 0 found.1

    small_base : (m : Notation) → base_of m ≤ 16
    small_base decimal = omega arith
    small_base hexadecimal = omega arith
    small_base binary = omega arith
    small_base (zero_x upper) = omega arith
    small_base (zero_b upper) = omega arith
