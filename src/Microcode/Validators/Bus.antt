-- ===== src/Microcode/Validators/Bus.antt =====
-- What the bus validator guarantees of a step.
use irata.Prelude.{
  ℕ, ◌≤◌, ◌≡◌, Bool, false, not, ◌&&◌, List, [], ◌∷◌, Option, length, null, ltb, ok, ◌>>◌, throw_if,
  arith, ◌↔◌, ◌⊎◌,
}
use irata.Base.Phase.{TickPhase}
use irata.Microcode.Ir.{Step, MicrocodeError}
use irata.Microcode.Validators.{BusType, data_bus, address_bus, writers, readers, check_buses}

-- A bus with the given numbers of drivers and of listeners.
abbrev pub Driven : List ℕ → List ℕ → Type 0
Driven drivers listeners = (length drivers ≤ 1) × ((length listeners ≡ 0) ⊎ (length drivers ≡ 1))

unheard :
    (ds ls : List ℕ) → ltb 1 (length ds) ≡ false → (not (null ls) && null ds) ≡ false → Driven ds ls
unheard [] [] a b = ground arith
unheard [] (l ∷ ls) a b = cc
unheard (d ∷ ds) ls a b = ground arith

Driven-tests :
    (ds ls : List ℕ)
    → Driven ds ls
    → (ltb 1 (length ds) ≡ false) × ((not (null ls) && null ds) ≡ false)
Driven-tests [] [] h = ground arith
Driven-tests [] (l ∷ ls) h = ground arith
Driven-tests (d ∷ ds) [] h = ground arith
Driven-tests (d ∷ ds) (l ∷ ls) h = ground arith

four_checks :
    (a b c d : Bool) (e f g h : MicrocodeError)
    → (throw_if a e >> (throw_if b f >> (throw_if c g >> throw_if d h))) ≡ ok tt
    → (a ≡ false) × (b ≡ false) × (c ≡ false) × (d ≡ false)
four_checks a b c d e f g h p = ground arith

four_passed :
    (a b c d : Bool) (e f g h : MicrocodeError)
    → (a ≡ false) × (b ≡ false) × (c ≡ false) × (d ≡ false)
    → (throw_if a e >> (throw_if b f >> (throw_if c g >> throw_if d h))) ≡ ok tt
four_passed a b c d e f g h p = ground arith

module _ (bus_of : ℕ → Option BusType) (phase_of : ℕ → TickPhase) (s : Step) where
  -- The bus validator accepts a step exactly when each bus has at most one writer, and exactly one
  -- if anything reads from it.
  pub check_buses-Driven : (check_buses bus_of phase_of s ≡ ok tt) ↔ (
      Driven (writers bus_of phase_of data_bus s) (readers bus_of phase_of data_bus s)
      × Driven (writers bus_of phase_of address_bus s) (readers bus_of phase_of address_bus s))
  unfolding check_buses
  check_buses-Driven = (
    λ h. let r = four_checks _ _ _ _ _ _ _ _ h in (unheard _ _ r.0 r.2, unheard _ _ r.1 r.3),
    λ h.
        let d = Driven-tests _ _ h.0 in
        let a = Driven-tests _ _ h.1 in four_passed _ _ _ _ _ _ _ _ (d.0, a.0, d.1, a.1),
  )
