-- ===== src/Sim/Controller/Flags.antt =====
-- The status byte that the controller looks its microcode up with:
-- sim/src/controller/status_encoder.cpp.
use irata.Prelude.{
  ℕ, ◌^◌, ◌<◌, bit_or, ◌≡◌, refl, sym, ap, ◌∙◌, Bool, true, false, ◌&&◌, ◌||◌, List, [], ◌∷◌, map,
  any, All, ◌==◌, same, arith, Bool-cases, inl, inr, ltb, ltb→lt, ==→eq, Text, find_name, same_text,
  Option, some, subst, Option-cases, Result, ok, err, ok_injective, throw_if-then, >>=-eq-ok,
  and_true, ap₂,
}
use irata.Bits.{u8, shl, shr, and_1, bit_or-lt, holds_below-at}
use irata.Bits.Digit.{digit, digit-bit_or, digit-pow, digit-zero}
use irata.Sim.Status.{value}
use irata.Microcode.Encoder.{StatusBits}
use irata.Sim.Controller.{
  ControllerError, unknown_status_bit, status_map, find_statuses, initialize_statuses,
  encode_statuses, decode_statuses,
}

pow_below : (b : ℕ) → b < 8 → 2 ^ b < 256
pow_below b h = ltb→lt (2 ^ b) 256 (holds_below-at 8 (λ n. ltb (2 ^ n) 256) b refl h)

cut : (b : ℕ) → 2 ^ b < 256 → u8 (shl 1 b) ≡ 2 ^ b
cut b h = omega arith

module _ (status : ℕ) where
  value-digit : (k : ℕ) → value status k ≡ (digit status k == 1)
  unfolding value
  value-digit k = ground (arith, and_1 (shr status k))

  flag_at :
      (b k : ℕ) (v : Bool) → value status b ≡ v → ((b == k) && value status k) ≡ ((b == k) && v)
  flag_at b k v e = elim (Bool-cases (b == k)) [
    | inl here ↦ rw here (ap (value status) (sym (==→eq b k here)) ∙ e)
    | inr other ↦ rw other refl
  ]

  encode_statuses-from :
      (refs : List ℕ) (encoded k : ℕ)
      → All (λ b. b < 8) refs
      → encoded < 256
      → (digit (encode_statuses status refs encoded) k == 1)
        ≡ ((digit encoded k == 1) || (any (λ b. b == k) refs && value status k))
  unfolding encode_statuses
  encode_statuses-from [] encoded k small fits = ground arith
  encode_statuses-from (b ∷ bs) encoded k small fits = elim (Bool-cases (value status b)) [
    | inl on ↦
        let mask = pow_below b small.0 in
        let step : u8 (bit_or encoded (u8 (shl 1 b))) ≡ bit_or encoded (2 ^ b) =
          ap (λ (n : ℕ). u8 (bit_or encoded n)) (cut b mask)
          ∙ omega (arith, bit_or-lt 8 encoded (2 ^ b) fits mask) in
        let ih =
          encode_statuses-from bs (bit_or encoded (2 ^ b)) k small.1
            (bit_or-lt 8 encoded (2 ^ b) fits mask) in
        rw (on, step)
          (ground (arith, ih, digit-bit_or k encoded (2 ^ b), digit-pow b k, flag_at b k true on))
    | inr off ↦
        let ih = encode_statuses-from bs encoded k small.1 fits in
        rw off (ground (arith, ih, flag_at b k false off))
  ]

find_name-small :
    (name : Text) (entries : List (Text × ℕ)) (b : ℕ)
    → All (λ e. e.1 < 8) entries
    → find_name name entries ≡ some b
    → b < 8
find_name-small name [] b small h = cc
find_name-small name (e ∷ es) b small h = elim (Bool-cases (same_text e.0 name)) [
  | inl here ↦
      let found : ◌≡◌ {A = Option ℕ} (some e.1) (some b) = rw here at h in
      subst (λ (n : ℕ). n < 8) (cc) small.0
  | inr other ↦ find_name-small name es b small.1 (rw other at h)
]

find_statuses-small :
    (bits : StatusBits) (refs : List ℕ) → find_statuses bits ≡ ok refs → All (λ b. b < 8) refs
unfolding find_statuses
find_statuses-small [] refs h = subst (λ (rs : List ℕ). All (λ b. b < 8) rs) (ok_injective h) tt
find_statuses-small (d ∷ ds) refs h = elim (Option-cases (find_name d.0 status_map)) [
  | inl e ↦ absurd (clash (rw (e, find_statuses) at h))
  | inr (b, e) ↦
      let (matched, rest) = throw_if-then _ _ _ (rw (e, find_statuses) at h) in
      let (others, found, same) = >>=-eq-ok (find_statuses ds) (λ others. ok (b ∷ others)) rest in
      subst (λ (rs : List ℕ). All (λ b. b < 8) rs) (ok_injective same)
        (find_name-small d.0 status_map b (omega arith) e, find_statuses-small ds others found)
]
  where
    clash : ◌≡◌ {A = Result ControllerError (List ℕ)} (err unknown_status_bit) (ok refs) → ⊥
    clash p = cc

-- With the flags that `StatusEncoder::Initialize` has accepted, the byte that `Encode` makes has
-- exactly those of the status register's set flags that are among them, each at its own bit.
pub encode_statuses-value :
    (bits : StatusBits) (refs : List ℕ) (status k : ℕ)
    → initialize_statuses bits ≡ ok refs
    → value (encode_statuses status refs 0) k ≡ (any (λ b. b == k) refs && value status k)
unfolding initialize_statuses
encode_statuses-value bits refs status k h =
    let (few, found) = throw_if-then _ _ _ h in
    value-digit (encode_statuses status refs 0) k
    ∙ encode_statuses-from status refs 0 k (find_statuses-small bits refs found) (omega arith)
    ∙ ground (arith, digit-zero k)

-- The order that sim/src/initialization.cpp gives the flags.
abbrev pub default_references : List ℕ
default_references = 7 ∷ 6 ∷ 5 ∷ 4 ∷ 3 ∷ 2 ∷ 1 ∷ 0 ∷ []

abbrev same_bools : List Bool → List Bool → Bool
same_bools [] [] = true
same_bools [] (c ∷ cs) = false
same_bools (b ∷ bs) [] = false
same_bools (b ∷ bs) (c ∷ cs) = same b c && same_bools bs cs

same_bools-eq : (bs cs : List Bool) → same_bools bs cs ≡ true → bs ≡ cs
same_bools-eq [] [] h = refl
same_bools-eq [] (c ∷ cs) h = cc
same_bools-eq (b ∷ bs) [] h = cc
same_bools-eq (b ∷ bs) (c ∷ cs) h =
    let (first, others) = and_true (same b c) (same_bools bs cs) h in
    ap₂ ◌∷◌ (same-eq b c first) (same_bools-eq bs cs others)
  where
    same-eq : (x y : Bool) → same x y ≡ true → x ≡ y
    same-eq true true e = refl
    same-eq true false e = cc
    same-eq false true e = cc
    same-eq false false e = refl

-- For every status byte, `Decode` of what `Encode` made gives the values of the default flags in the
-- reverse of their order: it reads the bits by position, where `Encode` has put them by index.
pub decode_statuses-encode_statuses :
    (status : ℕ)
    → status < 256
    → decode_statuses 0 default_references (encode_statuses status default_references 0)
      ≡ map (value status) (0 ∷ 1 ∷ 2 ∷ 3 ∷ 4 ∷ 5 ∷ 6 ∷ 7 ∷ [])
unfolding decode_statuses encode_statuses value
decode_statuses-encode_statuses status small = same_bools-eq _ _ (
    holds_below-at 256
      (λ s.
        same_bools (decode_statuses 0 default_references (encode_statuses s default_references 0))
          (map (value s) (0 ∷ 1 ∷ 2 ∷ 3 ∷ 4 ∷ 5 ∷ 6 ∷ 7 ∷ [])))
      status refl small)
