-- ===== src/Prelude/Digits.antt =====
-- Numbers as digits: how `operator<<` of C++ writes a number, with `std::hex` or without, and how the
-- digits that `std::stoul` and `std::stoll` go over are read.
use Prim.Native.Nat.{ℕ, zero, suc, ◌+◌, ◌-◌, ◌*◌, ◌/◌, ◌%◌, ◌≤◌, ◌<◌}
use mathlib.Core.Path.{◌≡◌, refl, sym, ap, ◌∙◌}
use mathlib.Core.Logic.{◌≢◌, inl, inr}
use mathlib.Core.Bool.{Bool, true, false, ◌&&◌, ◌||◌}
use mathlib.Core.List.{cons-ne-nil, [], ◌∷◌, ◌++◌}
use mathlib.Core.Option.{Option, none, some}
use native.Mathlib.Nat.{mod-lt, div-lt_self, div-add-mod'}
use native.Mathlib.Omega.{arith}
use irata.Prelude.Tests.{ltb, leb, if◌then◌else◌, Bool-cases, ltb→lt}
use irata.Prelude.Names.{Text}
use irata.Prelude.Lists.{All, length}

-- The value of a digit in a base up to 16.
unfoldable pub digit_of : ℕ → ℕ → Option ℕ
digit_of base c =
    if leb 48 c && leb c 57 && ltb (c - 48) base
    then some (c - 48)
    else if leb 97 c && leb c 102 && ltb (c - 87) base
    then some (c - 87)
    else if leb 65 c && leb c 70 && ltb (c - 55) base
    then some (c - 55)
    else none

-- A digit as it is written, in lower case.
abbrev pub digit_char : ℕ → ℕ
digit_char d = if ltb d 10 then 48 + d else 87 + d

-- The value of the digits at the front of a text behind `acc`, and the text behind them.
unfoldable pub scan : ℕ → ℕ → Text → ℕ × Text
unfolding digit_of
scan base acc [] = (acc, [])
scan base acc (c ∷ cs) = elim (digit_of base c) [
  | some d ↦ scan base (acc * base + d) cs
  | none ↦ (acc, c ∷ cs)
]

-- The digits of a number in front of a text, on fuel.
unfoldable pub emit : ℕ → ℕ → ℕ → Text → Text
emit zero base n out = out
emit (suc fuel) base n out = elim (ltb n base) [
  | true ↦ digit_char n ∷ out
  | false ↦ emit fuel base (n / base) (digit_char (n % base) ∷ out)
]

-- `out << n`, in front of what follows.
unfoldable pub write_number : ℕ → ℕ → Text → Text
unfolding emit
write_number base n out = emit (suc n) base n out

pub digit_of-digit_char :
    (base d : ℕ) → base ≤ 16 → d < base → digit_of base (digit_char d) ≡ some d
unfolding digit_of
digit_of-digit_char base d h g = ground arith

-- What the next digit does to a scan.
abbrev scan_case : ℕ → ℕ → ℕ → Text → Option ℕ → ℕ × Text
unfolding scan
scan_case base acc c cs digit = elim digit [
  | some d ↦ scan base (acc * base + d) cs
  | none ↦ (acc, c ∷ cs)
]

pub scan_stop :
    (base acc c : ℕ) (cs : Text) → digit_of base c ≡ none → scan base acc (c ∷ cs) ≡ (acc, c ∷ cs)
unfolding scan
scan_stop base acc c cs h = ap (scan_case base acc c cs) h

scan_digit :
    (base acc d : ℕ) (out : Text)
    → base ≤ 16
    → d < base
    → scan base acc (digit_char d ∷ out) ≡ scan base (acc * base + d) out
unfolding scan
scan_digit base acc d out h g =
    ap (scan_case base acc (digit_char d) out) (digit_of-digit_char base d h g)

-- What the test for a single digit does.
abbrev emit_case : ℕ → ℕ → ℕ → Text → Bool → Text
unfolding emit
emit_case fuel base n out single = elim single [
  | true ↦ digit_char n ∷ out
  | false ↦ emit fuel base (n / base) (digit_char (n % base) ∷ out)
]

emit_small :
    (fuel base n : ℕ) (out : Text)
    → ltb n base ≡ true
    → emit (suc fuel) base n out ≡ digit_char n ∷ out
unfolding emit
emit_small fuel base n out h = ap (emit_case fuel base n out) h

emit_large :
    (fuel base n : ℕ) (out : Text)
    → ltb n base ≡ false
    → emit (suc fuel) base n out ≡ emit fuel base (n / base) (digit_char (n % base) ∷ out)
unfolding emit
emit_large fuel base n out h = ap (emit_case fuel base n out) h

-- A division step of `emit` is a digit fewer to write.
scan-emit :
    (fuel base n : ℕ) (out : Text)
    → 2 ≤ base
    → base ≤ 16
    → n < fuel
    → scan base 0 (emit fuel base n out) ≡ scan base n out
unfolding emit
scan-emit zero base n out h g k = absurd (omega arith)
scan-emit (suc fuel) base n out h g k = elim (Bool-cases (ltb n base)) [
  | inl small ↦
      ap (λ (s : Text). scan base 0 s) (emit_small fuel base n out small)
      ∙ scan_digit base 0 n out g (ltb→lt n base small)
      ∙ ap (λ (m : ℕ). scan base m out) (omega arith)
  | inr large ↦
      let positive : 0 < n = ground (arith, large, h) in
      let shorter : n / base < n = div-lt_self positive h in
      ap (λ (s : Text). scan base 0 s) (emit_large fuel base n out large)
      ∙ scan-emit fuel base (n / base) (digit_char (n % base) ∷ out) h g (omega (arith, shorter, k))
      ∙ scan_digit base (n / base) (n % base) out g (mod-lt n (omega (arith, h)))
      ∙ ap (λ (m : ℕ). scan base m out) (div-add-mod' n base)
]

-- A number that is written is scanned back.
pub scan-write_number :
    (base n : ℕ) (out : Text)
    → 2 ≤ base
    → base ≤ 16
    → scan base 0 (write_number base n out) ≡ scan base n out
unfolding write_number
scan-write_number base n out h g = scan-emit (suc n) base n out h g (omega arith)

-- A digit as it is written.
abbrev pub is_digit : ℕ → ℕ → Bool
is_digit base c =
    leb 48 c && leb c 57 && ltb (c - 48) base || leb 97 c && leb c 102 && ltb (c - 87) base

abbrev pub IsWritten : ℕ → Text → Type 0
IsWritten base s = All (λ (c : ℕ). is_digit base c ≡ true) s

digit_char-is_digit : (base d : ℕ) → base ≤ 16 → d < base → is_digit base (digit_char d) ≡ true
digit_char-is_digit base d h g = ground arith

emit-IsWritten :
    (fuel base n : ℕ) (out : Text)
    → 2 ≤ base
    → base ≤ 16
    → IsWritten base out
    → IsWritten base (emit fuel base n out)
unfolding emit
emit-IsWritten zero base n out h g k = k
emit-IsWritten (suc fuel) base n out h g k = elim (Bool-cases (ltb n base)) [
  | inl small ↦ rw (small, emit) (digit_char-is_digit base n g (ltb→lt n base small), k)
  | inr large ↦
      rw (large, emit)
        (emit-IsWritten fuel base (n / base) (digit_char (n % base) ∷ out) h g
          (digit_char-is_digit base (n % base) g (mod-lt n (omega (arith, h))), k))
]

emit-append :
    (fuel base n : ℕ) (out rest : Text)
    → emit fuel base n (out ++ rest) ≡ emit fuel base n out ++ rest
unfolding emit
emit-append zero base n out rest = refl
emit-append (suc fuel) base n out rest = elim (Bool-cases (ltb n base)) [
  | inl small ↦
      ap (emit_case fuel base n (out ++ rest)) small
      ∙ ap (λ (s : Text). s ++ rest) (sym (ap (emit_case fuel base n out) small))
  | inr large ↦
      ap (emit_case fuel base n (out ++ rest)) large
      ∙ emit-append fuel base (n / base) (digit_char (n % base) ∷ out) rest
      ∙ ap (λ (s : Text). s ++ rest) (sym (ap (emit_case fuel base n out) large))
]

-- What a number is written as: a digit, and more of them.
pub write_number-append :
    (base n : ℕ) (rest : Text) → write_number base n rest ≡ write_number base n [] ++ rest
unfolding write_number
write_number-append base n rest = emit-append (suc n) base n [] rest

pub write_number-IsWritten :
    (base n : ℕ) → 2 ≤ base → base ≤ 16 → IsWritten base (write_number base n [])
unfolding write_number
write_number-IsWritten base n h g = emit-IsWritten (suc n) base n [] h g tt

emit-nonempty : (fuel base n : ℕ) (out : Text) → out ≢ [] → emit fuel base n out ≢ []
unfolding emit
emit-nonempty zero base n out h = h
emit-nonempty (suc fuel) base n out h = elim (Bool-cases (ltb n base)) [
  | inl small ↦ rw (small, emit) (cons-ne-nil (digit_char n) out)
  | inr large ↦
      rw (large, emit)
        (emit-nonempty fuel base (n / base) (digit_char (n % base) ∷ out)
          (cons-ne-nil (digit_char (n % base)) out))
]

pub write_number-nonempty : (base n : ℕ) → write_number base n [] ≢ []
unfolding write_number emit
write_number-nonempty base n = elim (Bool-cases (ltb n base)) [
  | inl small ↦ rw (small, emit) (cons-ne-nil (digit_char n) [])
  | inr large ↦
      rw (large, emit)
        (emit-nonempty n base (n / base) (digit_char (n % base) ∷ [])
          (cons-ne-nil (digit_char (n % base)) []))
]

pub scan-length : (base acc : ℕ) (s : Text) → length (scan base acc s).1 ≤ length s
unfolding scan
scan-length base acc [] = omega arith
scan-length base acc (c ∷ cs) = at (digit_of base c) (λ next. scan-length base next cs)
  where
    at :
        (digit : Option ℕ)
        → ((next : ℕ) → length (scan base next cs).1 ≤ length cs)
        → length (scan_case base acc c cs digit).1 ≤ suc (length cs)
    at none ih = omega arith
    at (some d) ih = omega (arith, ih (acc * base + d))

-- What a number is written as starts with a digit.
pub write_number-head :
    (base n : ℕ) (rest : Text)
    → 2 ≤ base
    → base ≤ 16
    → (d : ℕ) × (s : Text) × (is_digit base d ≡ true) × (write_number base n rest ≡ d ∷ s)
write_number-head base n rest h g =
    at (write_number base n []) (write_number-nonempty base n) (write_number-IsWritten base n h g)
      (write_number-append base n rest)
  where
    at :
        (w : Text)
        → w ≢ []
        → IsWritten base w
        → write_number base n rest ≡ w ++ rest
        → (d : ℕ) × (s : Text) × (is_digit base d ≡ true) × (write_number base n rest ≡ d ∷ s)
    at [] p q e = absurd (p refl)
    at (d ∷ s) p q e = (d, s ++ rest, q.0, e)
