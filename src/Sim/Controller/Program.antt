-- ===== src/Sim/Controller/Program.antt =====
-- A compiled program in the simulator: `Compiler::Compile` of microcode/src/compiler/compiler.cpp and
-- `InstructionMemory::Lookup` of sim/src/controller/instruction_memory.cpp.
use irata.Prelude.{
  Text, ℕ, suc, ◌≡◌, ◌^◌, refl, ap, subst, false, some, List, [], ◌∷◌, map, keep, All, length,
  get_or, ok, ltb, leb, if_both, Bool, sym, ◌<◌, get_elem?, >>=-eq-ok, ok_injective, ◌==◌, arith,
  not, if◌then◌else◌,
}
use native.Mathlib.Nat.{div-eq_of_lt}
use irata.Bits.{u8, shr}
use irata.Microcode.Ir.{Step, InstructionVariant, Instruction, InstructionSet, asserts}
use irata.Microcode.Encoder.{encode_key, make_key, encode_controls, expand_partial}
use irata.Microcode.Compiler.{
  Compiler, MicrocodeProgram, find_word, prepare, compile, encode, encode_instructions,
}
use irata.Bits.Digit.{digit}
use irata.Microcode.Compiler.Table.{All-map, StepsEncoded, VariantEncoded, InstructionsEncoded}
use irata.Microcode.Compiler.Checked.{compile-InstructionsEncoded}
use irata.Sim.Controller.{
  InstructionMemory, initialize_controls, initialize_statuses, new_instruction_memory, lookup,
  lookup_address, extract_controls,
}
use irata.Sim.Controller.Lookup.{
  Distinct, SamePaths, encode_controls-digit, encode_controls-lt, extract_controls-keep,
}
use irata.Sim.Controller.Rom.{Burnt, new_rom-Burnt, initialize_controls-SamePaths}

module _ (path_of name_of : ℕ → Text) (c : Compiler) (m : InstructionMemory) where
  -- `Lookup` returns the step's controls, by their paths, in the order of the registered ones.
  abbrev pub LooksUp : ℕ → ℕ → Step → ℕ → Type 0
  LooksUp opcode step s status =
      (found : List ℕ) × (lookup m opcode step status ≡ ok found)
      × (map path_of found ≡ map name_of (keep (λ x. asserts x s.controls) c.registered))

  abbrev pub StepsLookUp : ℕ → List ℕ → ℕ → List Step → Type 0
  StepsLookUp opcode statuses step [] = Unit
  StepsLookUp opcode statuses step (s ∷ rest) =
      All (LooksUp opcode (u8 step) s) statuses × StepsLookUp opcode statuses (suc step) rest

  abbrev pub VariantLooksUp : ℕ → InstructionVariant → Type 0
  VariantLooksUp opcode v =
      (statuses : List ℕ) × (expand_partial c.status_bits v.status_conditions ≡ ok statuses)
      × StepsLookUp opcode statuses 0 v.steps

  abbrev pub InstructionsLookUp : List Instruction → Type 0
  InstructionsLookUp = All (λ i. All (VariantLooksUp (u8 i.opcode)) i.variants)

lookup-ok :
    (m : InstructionMemory) (opcode step status word : ℕ)
    → lookup_address opcode step status < length m.rom
    → get_or m.rom (lookup_address opcode step status) 0 ≡ word
    → word < 2 ^ length m.references
    → lookup m opcode step status ≡ ok (extract_controls 0 m.references word)
unfolding lookup
lookup-ok m opcode step status word below read small =
    let n = length m.references in
    let inside : leb (length m.rom) (lookup_address opcode step status) ≡ false = ground arith in
    let none_above : shr word n ≡ 0 = div-eq_of_lt small in
    let fits : (if ltb n 128 then not (shr word n == 0) else false) ≡ false =
      if_both (λ (b : Bool). b ≡ false) (ltb n 128) (ground (arith, none_above)) refl in
    rw (inside, read, fits) refl

module _ (path_of name_of : ℕ → Text) (c : Compiler) (m : InstructionMemory) (table : List (ℕ × ℕ))
    (distinct : Distinct c.registered) (counted : length m.references ≡ length c.registered)
    (same : SamePaths path_of name_of m.references c.registered) (held : Burnt table m.rom) where
  lookup-LooksUp :
      (opcode step : ℕ) (s : Step) (status word : ℕ)
      → encode_controls c.registered s.controls ≡ ok word
      → find_word (encode_key (make_key opcode step status)) table ≡ some word
      → LooksUp path_of name_of c m (u8 opcode) step s status
  unfolding lookup_address encode_key make_key
  lookup-LooksUp opcode step s status word made there =
      let (below, read) = held _ word there in
      let small : word < 2 ^ length m.references =
        subst (λ (n : ℕ). word < 2 ^ n) (sym counted)
          (encode_controls-lt c.registered s.controls word made) in
      let shown = λ (k x : ℕ) (e : get_elem? c.registered k ≡ some x).
        subst (λ (n : ℕ). (digit word n == 1) ≡ asserts x s.controls) (omega arith)
          (encode_controls-digit c.registered s.controls word made k x distinct e) in
      (
        extract_controls 0 m.references word,
        lookup-ok m (u8 opcode) step status word below read small,
        extract_controls-keep path_of name_of word (λ x. asserts x s.controls) 0 m.references
            c.registered same shown,
      )

  lookup-StepsLookUp :
      (opcode : ℕ) (statuses : List ℕ) (step : ℕ) (steps : List Step)
      → StepsEncoded c opcode statuses table step steps
      → StepsLookUp path_of name_of c m (u8 opcode) statuses step steps
  lookup-StepsLookUp opcode statuses step [] h = tt
  lookup-StepsLookUp opcode statuses step (s ∷ rest) ((word, made, found), behind) = (
    All-map (λ status. lookup-LooksUp opcode (u8 step) s status word made) statuses found,
    lookup-StepsLookUp opcode statuses (suc step) rest behind,
  )

  lookup-InstructionsLookUp :
      (is : List Instruction)
      → InstructionsEncoded c table is
      → InstructionsLookUp path_of name_of c m is
  lookup-InstructionsLookUp is = All-map (λ i. All-map (variant i.opcode) i.variants) is
    where
      variant :
          (opcode : ℕ) (v : InstructionVariant)
          → VariantEncoded c opcode table v
          → VariantLooksUp path_of name_of c m (u8 opcode) v
      variant opcode v (statuses, e, steps) =
          (statuses, e, lookup-StepsLookUp opcode statuses 0 v.steps steps)

compile-fields :
    (c : Compiler) (set : InstructionSet) (program : MicrocodeProgram)
    → compile c set ≡ ok program
    → (program.controls ≡ c.registered) × (program.status_bits ≡ c.status_bits)
unfolding compile encode
compile-fields c set program h =
    let (ready, prepared, encoded) = >>=-eq-ok (prepare c set) _ h in
    let (made, stored, same) =
      >>=-eq-ok (encode_instructions c ready.instructions [])
        (λ made. ok (record { table = made; controls = c.registered; status_bits = c.status_bits }))
        encoded in
    let p : record { table = made; controls = c.registered; status_bits = c.status_bits }
        ≡ program =
      ok_injective same in
    (
      sym (ap (λ (q : MicrocodeProgram). q.controls) p),
      sym (ap (λ (q : MicrocodeProgram). q.status_bits) p),
    )

module _ (path_of name_of : ℕ → Text) (c : Compiler) where
  -- Where the controls that the compiler has registered differ from each other, and the simulator's
  -- controls and flags pass the checks of the two encoders' `Initialize`, the simulator loads every
  -- program that `Compile` returns. `Lookup` then returns, for every step of every variant of every
  -- instruction that the passes made, under each status of the variant's expansion, the controls
  -- that the step asserts and no others: their paths are those of the step's controls, in the
  -- registered order.
  pub new_instruction_memory-InstructionsLookUp :
      (set : InstructionSet) (program : MicrocodeProgram)
      (control_order references statuses : List ℕ)
      → Distinct c.registered
      → compile c set ≡ ok program
      → initialize_controls path_of (map name_of c.registered) control_order ≡ ok references
      → initialize_statuses c.status_bits ≡ ok statuses
      → (m : InstructionMemory) × (new_instruction_memory path_of name_of program control_order
          ≡ ok m)
        × (ready : InstructionSet) × (prepare c set ≡ ok ready)
        × InstructionsLookUp path_of name_of c m ready.instructions
  unfolding new_instruction_memory
  new_instruction_memory-InstructionsLookUp set program control_order references statuses distinct
        compiled controls flags =
      let (ready, prepared, checked, encoded) =
        compile-InstructionsEncoded c set program compiled in
      let (few, counted, same) =
        initialize_controls-SamePaths path_of name_of c.registered control_order references
          controls in
      let (rom, burnt, held) = new_rom-Burnt program.table in
      let m : InstructionMemory = record {
        references = references;
        statuses = statuses;
        rom = rom;
      } in
      let (registered, bits) = compile-fields c set program compiled in
      (
        m,
        rw (registered, bits, controls, flags, burnt) refl,
        ready,
        prepared,
        lookup-InstructionsLookUp path_of name_of c m program.table distinct counted same held
            ready.instructions encoded,
      )
