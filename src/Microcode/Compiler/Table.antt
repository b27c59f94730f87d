-- ===== src/Microcode/Compiler/Table.antt =====
-- The table that the compiler makes.
use irata.Prelude.{
  ℕ, suc, ◌≡◌, refl, sym, subst, ap, ◌∙◌, none, some, List, [], ◌∷◌, ◌==◌, ==→eq, ==_self, ok,
  >>=-eq-ok, throw_if-then, ok_injective, Bool-cases, Option-cases, inl, inr, not-false, All,
}
use irata.Bits.{u8}
use irata.Microcode.Ir.{Step, InstructionVariant, Instruction, InstructionSet}
use irata.Microcode.Encoder.{encode_key, make_key, encode_controls, expand_partial}
use irata.Microcode.Compiler.{
  Compiler, Table, find_word, emplace, encode_statuses, encode_steps, encode_variants,
  encode_instructions, encode, MicrocodeProgram,
}

-- Every word of a table is in another one, at its key.
abbrev Extends : Table → Table → Type 0
Extends old new = (key word : ℕ) → find_word key old ≡ some word → find_word key new ≡ some word

Extends-trans : (a b c : Table) → Extends a b → Extends b c → Extends a c
Extends-trans a b c h g key word e = g key word (h key word e)

cons-Extends :
    (key word : ℕ) (table : Table)
    → find_word key table ≡ none
    → Extends table ((key, word) ∷ table)
cons-Extends key word table free k w h = elim (Bool-cases (key == k)) [
  | inl e ↦ absurd (clash (sym free ∙ ap (λ n. find_word n table) (==→eq key k e) ∙ h))
  | inr n ↦ rw n h
]
  where
    clash : none ≡ some w → ⊥
    clash p = cc

emplace-Extends :
    (key word : ℕ) (table now : Table)
    → emplace key word table ≡ ok now
    → Extends table now × (find_word key now ≡ some word)
unfolding emplace
emplace-Extends key word table now h = elim (Option-cases (find_word key table)) [
  | inl e ↦ rw (← fresh e) (cons-Extends key word table e, rw (==_self key) refl)
  | inr (there, e) ↦ let kept = old there e in rw (← kept.1) (λ k w f. f, e ∙ ap some kept.0)
]
  where
    fresh : find_word key table ≡ none → ◌≡◌ {A = Table} ((key, word) ∷ table) now
    fresh e = ok_injective (rw (e, emplace) at h)

    old : (there : ℕ) → find_word key table ≡ some there → (there ≡ word) × (table ≡ now)
    old there e =
        let (fits, same) = throw_if-then _ _ _ (rw (e, emplace) at h) in
        (==→eq there word (not-false _ fits), ok_injective same)

encode_statuses_lem :
    (opcode step word : ℕ) (statuses : List ℕ) (table now : Table)
    → encode_statuses opcode step word statuses table ≡ ok now
    → Extends table now
      × All (λ s. find_word (encode_key (make_key opcode (u8 step) s)) now ≡ some word) statuses
unfolding encode_statuses
encode_statuses_lem opcode step word [] table now h = rw (← ok_injective h) (λ k w f. f, tt)
encode_statuses_lem opcode step word (s ∷ rest) table now h =
    let (mid, one, others) = >>=-eq-ok _ _ h in
    let (grown, here) = emplace-Extends _ word table mid one in
    let (later, behind) = encode_statuses_lem opcode step word rest mid now others in
    (Extends-trans table mid now grown later, (later _ word here, behind))

-- A step's word stands at the keys of the step under each of the statuses.
abbrev pub StepsEncoded : Compiler → ℕ → List ℕ → Table → ℕ → List Step → Type 0
StepsEncoded c opcode statuses table step [] = Unit
StepsEncoded c opcode statuses table step (s ∷ rest) =
    ((word : ℕ) × (encode_controls c.registered s.controls ≡ ok word)
      × All (λ status. find_word (encode_key (make_key opcode (u8 step) status)) table ≡ some word)
          statuses)
    × StepsEncoded c opcode statuses table (suc step) rest

abbrev pub VariantEncoded : Compiler → ℕ → Table → InstructionVariant → Type 0
VariantEncoded c opcode table v =
    (statuses : List ℕ) × (expand_partial c.status_bits v.status_conditions ≡ ok statuses)
    × StepsEncoded c opcode statuses table 0 v.steps

abbrev pub InstructionsEncoded : Compiler → Table → List Instruction → Type 0
InstructionsEncoded c table = All (λ i. All (VariantEncoded c i.opcode table) i.variants)

pub All-map {ℓ} :
    {A : Type ℓ} {P Q : A → Type 0} → ((x : A) → P x → Q x) → (xs : List A) → All P xs → All Q xs
All-map f [] h = tt
All-map f (x ∷ xs) h = (f x h.0, All-map f xs h.1)

module _ (c : Compiler) (old new : Table) (grown : Extends old new) where
  StepsEncoded-Extends :
      (opcode : ℕ) (statuses : List ℕ) (step : ℕ) (steps : List Step)
      → StepsEncoded c opcode statuses old step steps
      → StepsEncoded c opcode statuses new step steps
  StepsEncoded-Extends opcode statuses step [] h = tt
  StepsEncoded-Extends opcode statuses step (s ∷ rest) ((word, e, found), behind) = (
    (word, e, All-map (λ status. grown _ word) statuses found),
    StepsEncoded-Extends opcode statuses (suc step) rest behind,
  )

  VariantEncoded-Extends :
      (opcode : ℕ) (v : InstructionVariant)
      → VariantEncoded c opcode old v
      → VariantEncoded c opcode new v
  VariantEncoded-Extends opcode v (statuses, e, steps) =
      (statuses, e, StepsEncoded-Extends opcode statuses 0 v.steps steps)

module _ (c : Compiler) where
  encode_steps_lem :
      (opcode : ℕ) (statuses : List ℕ) (step : ℕ) (steps : List Step) (table now : Table)
      → encode_steps c opcode statuses step steps table ≡ ok now
      → Extends table now × StepsEncoded c opcode statuses now step steps
  unfolding encode_steps
  encode_steps_lem opcode statuses step [] table now h = rw (← ok_injective h) (λ k w f. f, tt)
  encode_steps_lem opcode statuses step (s ∷ rest) table now h =
      let (small, checked) = throw_if-then _ _ _ h in
      let (word, made, stored) = >>=-eq-ok _ _ checked in
      let (mid, one, others) = >>=-eq-ok _ _ stored in
      let (grown, here) = encode_statuses_lem opcode step word statuses table mid one in
      let (later, behind) = encode_steps_lem opcode statuses (suc step) rest mid now others in
      (
        Extends-trans table mid now grown later,
        ((word, made, All-map (λ status. later _ word) statuses here), behind),
      )

  encode_variants_lem :
      (opcode : ℕ) (vs : List InstructionVariant) (table now : Table)
      → encode_variants c opcode vs table ≡ ok now
      → Extends table now × All (VariantEncoded c opcode now) vs
  unfolding encode_variants
  encode_variants_lem opcode [] table now h = rw (← ok_injective h) (λ k w f. f, tt)
  encode_variants_lem opcode (v ∷ rest) table now h =
      let (statuses, expanded, stored) = >>=-eq-ok _ _ h in
      let (mid, one, others) = >>=-eq-ok _ _ stored in
      let (grown, here) = encode_steps_lem opcode statuses 0 v.steps table mid one in
      let (later, behind) = encode_variants_lem opcode rest mid now others in
      (
        Extends-trans table mid now grown later,
        (
          (statuses, expanded, StepsEncoded-Extends c mid now later opcode statuses 0 v.steps here),
          behind,
        ),
      )

  encode_instructions_lem :
      (is : List Instruction) (table now : Table)
      → encode_instructions c is table ≡ ok now
      → Extends table now × InstructionsEncoded c now is
  unfolding encode_instructions
  encode_instructions_lem [] table now h = rw (← ok_injective h) (λ k w f. f, tt)
  encode_instructions_lem (i ∷ rest) table now h =
      let (small, stored) = throw_if-then _ _ _ h in
      let (mid, one, others) = >>=-eq-ok _ _ stored in
      let (grown, here) = encode_variants_lem i.opcode i.variants table mid one in
      let (later, behind) = encode_instructions_lem rest mid now others in
      (
        Extends-trans table mid now grown later,
        (All-map (VariantEncoded-Extends c mid now later i.opcode) i.variants here, behind),
      )

  -- In a program that `Encode` returns, every step of every variant of every instruction has the
  -- word of its controls at the key of its opcode and number under each status of the variant's
  -- expansion: no later step has replaced it.
  pub encode-InstructionsEncoded :
      (set : InstructionSet) (program : MicrocodeProgram)
      → encode c set ≡ ok program
      → InstructionsEncoded c program.table set.instructions
  unfolding encode
  encode-InstructionsEncoded set program h =
      let (made, encoded, same) = >>=-eq-ok _ _ h in
      subst (λ (p : MicrocodeProgram). InstructionsEncoded c p.table set.instructions)
        (ok_injective same) (encode_instructions_lem set.instructions [] made encoded).1
