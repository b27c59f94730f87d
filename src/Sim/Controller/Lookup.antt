-- ===== src/Sim/Controller/Lookup.antt =====
-- What the controller's instruction memory (sim/src/controller/instruction_memory.cpp) reads of a
-- program of the microcode compiler.
use native.Mathlib.Nat.{one-le-pow, pow-le-pow_right, pow-suc}
use irata.Prelude.{
  Text, ℕ, zero, suc, ◌+◌, ◌*◌, ◌^◌, ◌<◌, bit_and, bit_or, ◌≡◌, refl, sym, ap₂, ◌∙◌, subst, Bool,
  true, false, ◌||◌, none, some, List, [], ◌∷◌, map, any, keep, All, length, get_elem?, ◌==◌, ok,
  arith, Bool-cases, Option-cases, inl, inr, ok_injective,
}
use irata.Bits.{shl, shr, bit_or-lt, and_1}
use irata.Bits.Digit.{digit, digit-bit_or, digit-pow, digit-zero}
use irata.Microcode.Ir.{asserts}
use irata.Microcode.Encoder.{control_index, encode_from, encode_controls}
use irata.Sim.Controller.{extract_controls}

-- Each control has one place among the registered ones.
abbrev pub Distinct : List ℕ → Type 0
Distinct [] = Unit
Distinct (c ∷ cs) = All (λ d. (c == d) ≡ false) cs × Distinct cs

abbrev has_index : List ℕ → ℕ → ℕ → Bool
has_index registered i c = elim (control_index registered c) [ none ↦ false | some j ↦ j == i ]

All-get_elem? {ℓ} :
    {A : Type 0} (P : A → Type ℓ) (xs : List A) (i : ℕ) (x : A)
    → All P xs
    → get_elem? xs i ≡ some x
    → P x
All-get_elem? P [] i x h e = cc
All-get_elem? P (y ∷ ys) zero x h e = subst P (cc) h.0
All-get_elem? P (y ∷ ys) (suc i) x h e = All-get_elem? P ys i x h.1 e

has_index-Distinct :
    (registered : List ℕ) (i c x : ℕ)
    → Distinct registered
    → get_elem? registered i ≡ some x
    → has_index registered i c ≡ (c == x)
unfolding control_index
has_index-Distinct [] i c x d e = cc
has_index-Distinct (y ∷ ys) zero c x d e = let same : y ≡ x = cc in ground arith
has_index-Distinct (y ∷ ys) (suc i) c x d e =
    let other = All-get_elem? (λ z. (y == z) ≡ false) ys i x d.0 e in
    let ih = has_index-Distinct ys i c x d.1 e in ground (arith, other, ih)

control_index-lt :
    (registered : List ℕ) (c j : ℕ) → control_index registered c ≡ some j → j < length registered
unfolding control_index
control_index-lt [] c j h = cc
control_index-lt (y ∷ ys) c j h = elim (Option-cases (control_index ys c)) [
  | inl e ↦ ground (arith, e, h)
  | inr (k, e) ↦ let ih = control_index-lt ys c k e in ground (arith, e, h, ih)
]

or_right : (b : Bool) → (b || false) ≡ b
or_right true = refl
or_right false = refl

step_digit :
    (word j i : ℕ) → (digit (bit_or word (shl 1 j)) i == 1) ≡ ((digit word i == 1) || (j == i))
step_digit word j i = ground (arith, digit-bit_or i word (shl 1 j), digit-pow j i)

encode_from-digit :
    (registered : List ℕ) (word : ℕ) (controls : List ℕ) (out i : ℕ)
    → encode_from registered word controls ≡ ok out
    → (digit out i == 1) ≡ ((digit word i == 1) || any (has_index registered i) controls)
unfolding encode_from
encode_from-digit registered word [] out i h =
    let same : word ≡ out = ok_injective h in rw same (sym (or_right _))
encode_from-digit registered word (c ∷ cs) out i h =
    elim (Option-cases (control_index registered c)) [
      | inl e ↦ ground (arith, e, h)
      | inr (j, e) ↦
          let ih =
            encode_from-digit registered (bit_or word (shl 1 j)) cs out i
              (rw (e, encode_from) at h) in
          ground (arith, e, ih, step_digit word j i)
    ]

any-agree : (p q : ℕ → Bool) (xs : List ℕ) → ((x : ℕ) → p x ≡ q x) → any p xs ≡ any q xs
any-agree p q [] h = refl
any-agree p q (x ∷ xs) h = ap₂ ◌||◌ (h x) (any-agree p q xs h)

module _ (registered : List ℕ) (controls : List ℕ) (word : ℕ)
    (encoded : encode_controls registered controls ≡ ok word) where
  -- A bit of a control word tells whether the step asserts the control of that index.
  pub encode_controls-digit :
      (i x : ℕ)
      → Distinct registered
      → get_elem? registered i ≡ some x
      → (digit word i == 1) ≡ asserts x controls
  unfolding encode_controls
  encode_controls-digit i x d e =
      encode_from-digit registered 0 controls word i encoded
      ∙ ground (arith, digit-zero i)
      ∙ any-agree (has_index registered i) (λ c. c == x) controls
          (λ c. has_index-Distinct registered i c x d e)

encode_from-lt :
    (registered : List ℕ) (word : ℕ) (controls : List ℕ) (out : ℕ)
    → word < 2 ^ length registered
    → encode_from registered word controls ≡ ok out
    → out < 2 ^ length registered
unfolding encode_from
encode_from-lt registered word [] out small h =
    let same : word ≡ out = ok_injective h in omega (arith, same)
encode_from-lt registered word (c ∷ cs) out small h =
    elim (Option-cases (control_index registered c)) [
      | inl e ↦ ground (arith, e, h)
      | inr (j, e) ↦
          encode_from-lt registered (bit_or word (shl 1 j)) cs out
            (bit_or-lt (length registered) word (shl 1 j) small
              (below j (control_index-lt registered c j e)))
            (rw (e, encode_from) at h)
    ]
  where
    below : (j : ℕ) → j < length registered → 1 * 2 ^ j < 2 ^ length registered
    below j h = omega (
      arith,
      pow-suc 2 j,
      pow-le-pow_right {n = 2} (omega arith) {i = suc j} {j = length registered} (omega arith),
    )

pub encode_controls-lt :
    (registered controls : List ℕ) (out : ℕ)
    → encode_controls registered controls ≡ ok out
    → out < 2 ^ length registered
unfolding encode_controls
encode_controls-lt registered controls out h =
    encode_from-lt registered 0 controls out (one-le-pow (length registered) 2 (omega arith)) h

-- The two lists of controls have the same paths, one by one.
abbrev pub SamePaths : (ℕ → Text) → (ℕ → Text) → List ℕ → List ℕ → Type 0
SamePaths path_of name_of [] [] = Unit
SamePaths path_of name_of [] (c ∷ cs) = ⊥
SamePaths path_of name_of (r ∷ rs) [] = ⊥
SamePaths path_of name_of (r ∷ rs) (c ∷ cs) =
    (path_of r ≡ name_of c) × SamePaths path_of name_of rs cs

digit-test : (word i : ℕ) → (bit_and (shr word i) 1 == 1) ≡ (digit word i == 1)
digit-test word i = ground (arith, and_1 (shr word i))

module _ (path_of name_of : ℕ → Text) (word : ℕ) (p : ℕ → Bool) where
  pub extract_controls-keep :
      (i : ℕ) (references registered : List ℕ)
      → SamePaths path_of name_of references registered
      → ((k x : ℕ) → get_elem? registered k ≡ some x → (digit word (k + i) == 1) ≡ p x)
      → map path_of (extract_controls i references word) ≡ map name_of (keep p registered)
  unfolding extract_controls
  extract_controls-keep i [] [] s h = refl
  extract_controls-keep i [] (c ∷ cs) s h = absurd s
  extract_controls-keep i (r ∷ rs) [] s h = absurd s
  extract_controls-keep i (r ∷ rs) (c ∷ cs) s h =
      let ih =
        extract_controls-keep (suc i) rs cs s.1
          (λ k x e. subst (λ (n : ℕ). (digit word n == 1) ≡ p x) (omega arith) (h (suc k) x e)) in
      let here : (bit_and (shr word i) 1 == 1) ≡ p c =
        digit-test word i
        ∙ subst (λ (n : ℕ). (digit word n == 1) ≡ p c) (omega arith) (h 0 c refl) in
      elim (Bool-cases (p c)) [
        | inl e ↦
            let t : (bit_and (shr word i) 1 == 1) ≡ true = here ∙ e in
            rw (t, e, keep) (ap₂ ◌∷◌ s.0 ih)
        | inr n ↦ let t : (bit_and (shr word i) 1 == 1) ≡ false = here ∙ n in rw (t, n, keep) ih
      ]
