-- ===== src/Microcode/Validators/Places.antt =====
-- What the bus validator of microcode/src/compiler/bus_validator.cpp accepts, in terms of the places
-- of a step's controls.
use irata.Prelude.{
  ℕ, zero, suc, ◌≤◌, ◌≡◌, refl, ap, Bool, true, false, Bool-cases, inl, inr, ◌⊎◌, ◌↔◌, List, [],
  ◌∷◌, Option, none, some, length, keep, get_elem?, ok, arith, subst, sym,
}
use irata.Base.Phase
use irata.Base.Phase.{TickPhase}
use irata.Microcode.Ir.{Step}
use irata.Microcode.Validators.{
  BusType, data_bus, address_bus, same_bus, writes_to, reads_from, writers, readers, check_buses,
}
use irata.Microcode.Validators.Bus.{Driven, check_buses-Driven}

module _ (test : ℕ → Bool) where
  -- A control of the list that passes the test, at its place.
  abbrev Passes : List ℕ → Type 0
  Passes cs = (i c : ℕ) × (get_elem? cs i ≡ some c) × (test c ≡ true)

  keep-cons : (c : ℕ) (cs : List ℕ) → length (keep test cs) ≤ length (keep test (c ∷ cs))
  keep-cons c cs = elim (Bool-cases (test c)) [
    | inl passes ↦ rw (keep, passes) (omega arith)
    | inr fails ↦ rw (keep, fails) (omega arith)
  ]

  keep-hit :
      (c : ℕ) (cs : List ℕ)
      → test c ≡ true
      → length (keep test (c ∷ cs)) ≡ suc (length (keep test cs))
  keep-hit c cs passes = rw (keep, passes) refl

  keep-miss :
      (c : ℕ) (cs : List ℕ) → test c ≡ false → length (keep test (c ∷ cs)) ≡ length (keep test cs)
  keep-miss c cs fails = rw (keep, fails) refl

  kept-some :
      (cs : List ℕ) (i c : ℕ) → get_elem? cs i ≡ some c → test c ≡ true → 1 ≤ length (keep test cs)
  kept-some [] i c h t = cc
  kept-some (d ∷ cs) zero c h t =
      let same : d ≡ c = cc in
      omega (arith, keep-hit d cs (subst (λ x. test x ≡ true) (sym same) t))
  kept-some (d ∷ cs) (suc i) c h t = omega (arith, kept-some cs i c h t, keep-cons d cs)

  kept-cases : (cs : List ℕ) → (length (keep test cs) ≡ 0) ⊎ Passes cs
  kept-cases [] = inl refl
  kept-cases (c ∷ cs) = elim (Bool-cases (test c)) [
    | inl passes ↦ inr (0, c, refl, passes)
    | inr fails ↦ elim (kept-cases cs) [
      | inl empty ↦ inl (omega (arith, keep-miss c cs fails, empty))
      | inr (i, d, there, t) ↦ inr (suc i, d, there, t)
    ]
  ]

  -- Two controls that pass the test stand at one place.
  abbrev AtOnce : List ℕ → Type 0
  AtOnce cs =
      (i j c d : ℕ)
      → get_elem? cs i ≡ some c
      → get_elem? cs j ≡ some d
      → test c ≡ true
      → test d ≡ true
      → i ≡ j

  kept-AtOnce : (cs : List ℕ) → length (keep test cs) ≤ 1 → AtOnce cs
  kept-AtOnce [] h i j c d hi hj tc td = cc
  kept-AtOnce (x ∷ cs) h zero zero c d hi hj tc td = refl
  kept-AtOnce (x ∷ cs) h zero (suc j) c d hi hj tc td =
      let same : x ≡ c = cc in
      absurd (
        omega (
          arith,
          h,
          keep-hit x cs (subst (λ y. test y ≡ true) (sym same) tc),
          kept-some cs j d hj td,
        ))
  kept-AtOnce (x ∷ cs) h (suc i) zero c d hi hj tc td =
      let same : x ≡ d = cc in
      absurd (
        omega (
          arith,
          h,
          keep-hit x cs (subst (λ y. test y ≡ true) (sym same) td),
          kept-some cs i c hi tc,
        ))
  kept-AtOnce (x ∷ cs) h (suc i) (suc j) c d hi hj tc td =
      ap suc (kept-AtOnce cs (omega (arith, h, keep-cons x cs)) i j c d hi hj tc td)

  AtOnce-kept : (cs : List ℕ) → AtOnce cs → length (keep test cs) ≤ 1
  AtOnce-kept [] h = omega arith
  AtOnce-kept (x ∷ cs) h = elim (Bool-cases (test x)) [
    | inl passes ↦ elim (kept-cases cs) [
      | inl empty ↦ omega (arith, keep-hit x cs passes, empty)
      | inr (i, c, there, t) ↦ absurd (omega (arith, h 0 (suc i) x c refl there passes t))
    ]
    | inr fails ↦ omega (
      arith,
      keep-miss x cs fails,
      AtOnce-kept cs (λ i j c d hi hj tc td. omega (arith, h (suc i) (suc j) c d hi hj tc td)),
    )
  ]

abbrev writes_case : Option BusType → TickPhase → BusType → Bool
writes_case o phase bus = writes_to (λ c. o) (λ c. phase) bus 0

abbrev reads_case : Option BusType → TickPhase → BusType → Bool
reads_case o phase bus = reads_from (λ c. o) (λ c. phase) bus 0

same_bus_self : (bus : BusType) → same_bus bus bus ≡ true
same_bus_self data_bus = refl
same_bus_self address_bus = refl

writes_case-true :
    (o : Option BusType) (phase : TickPhase) (bus : BusType)
    → writes_case o phase bus ≡ true
    → (o ≡ some bus) × (phase ≡ Phase.write)
writes_case-true none phase bus h = cc
writes_case-true (some data_bus) Phase.write data_bus h = (refl, refl)
writes_case-true (some data_bus) Phase.write address_bus h = cc
writes_case-true (some address_bus) Phase.write data_bus h = cc
writes_case-true (some address_bus) Phase.write address_bus h = (refl, refl)
writes_case-true (some b) Phase.none bus h = cc
writes_case-true (some b) Phase.control bus h = cc
writes_case-true (some b) Phase.read bus h = cc
writes_case-true (some b) Phase.process bus h = cc
writes_case-true (some b) Phase.clear bus h = cc

true-writes_case :
    (o : Option BusType) (phase : TickPhase) (bus : BusType)
    → o ≡ some bus
    → phase ≡ Phase.write
    → writes_case o phase bus ≡ true
true-writes_case o phase bus e f = rw (e, f) (same_bus_self bus)

reads_case-true :
    (o : Option BusType) (phase : TickPhase) (bus : BusType)
    → reads_case o phase bus ≡ true
    → (o ≡ some bus) × (phase ≡ Phase.read)
reads_case-true none phase bus h = cc
reads_case-true (some data_bus) Phase.read data_bus h = (refl, refl)
reads_case-true (some data_bus) Phase.read address_bus h = cc
reads_case-true (some address_bus) Phase.read data_bus h = cc
reads_case-true (some address_bus) Phase.read address_bus h = (refl, refl)
reads_case-true (some b) Phase.none bus h = cc
reads_case-true (some b) Phase.control bus h = cc
reads_case-true (some b) Phase.write bus h = cc
reads_case-true (some b) Phase.process bus h = cc
reads_case-true (some b) Phase.clear bus h = cc

true-reads_case :
    (o : Option BusType) (phase : TickPhase) (bus : BusType)
    → o ≡ some bus
    → phase ≡ Phase.read
    → reads_case o phase bus ≡ true
true-reads_case o phase bus e f = rw (e, f) (same_bus_self bus)

module _ (bus_of : ℕ → Option BusType) (phase_of : ℕ → TickPhase) where
  -- A control that puts a value on a bus, and one that takes it.
  abbrev pub Drives : BusType → ℕ → Type 0
  Drives bus c = (bus_of c ≡ some bus) × (phase_of c ≡ Phase.write)

  abbrev pub Hears : BusType → ℕ → Type 0
  Hears bus c = (bus_of c ≡ some bus) × (phase_of c ≡ Phase.read)

  -- No two places of the controls drive the bus, and if one place hears it, one drives it.
  abbrev pub IsServed : BusType → List ℕ → Type 0
  IsServed bus cs =
      ((i j c d : ℕ)
        → get_elem? cs i ≡ some c
        → get_elem? cs j ≡ some d
        → Drives bus c
        → Drives bus d
        → i ≡ j)
      × ((j d : ℕ)
          → get_elem? cs j ≡ some d
          → Hears bus d
          → (i c : ℕ) × (get_elem? cs i ≡ some c) × Drives bus c)

  Driven-IsServed :
      (bus : BusType) (s : Step)
      → Driven (writers bus_of phase_of bus s) (readers bus_of phase_of bus s)
      → IsServed bus s.controls
  Driven-IsServed bus s (one, heard) = (
    λ i j c d hi hj dc dd.
        kept-AtOnce (writes_to bus_of phase_of bus) s.controls one i j c d hi hj
          (true-writes_case (bus_of c) (phase_of c) bus dc.0 dc.1)
          (true-writes_case (bus_of d) (phase_of d) bus dd.0 dd.1),
    λ j d hj hears.
        let listens =
          kept-some (reads_from bus_of phase_of bus) s.controls j d hj
            (true-reads_case (bus_of d) (phase_of d) bus hears.0 hears.1) in
        elim (kept-cases (writes_to bus_of phase_of bus) s.controls) [
          | inl empty ↦ absurd (driverless empty heard listens)
          | inr (i, c, there, t) ↦ (i, c, there, writes_case-true (bus_of c) (phase_of c) bus t)
        ],
  )
    where
      driverless :
          {drivers listeners : ℕ}
          → drivers ≡ 0
          → (listeners ≡ 0) ⊎ (drivers ≡ 1)
          → 1 ≤ listeners
          → ⊥
      driverless e (inl f) g = omega (arith, e, f, g)
      driverless e (inr f) g = omega (arith, e, f, g)

  IsServed-Driven :
      (bus : BusType) (s : Step)
      → IsServed bus s.controls
      → Driven (writers bus_of phase_of bus s) (readers bus_of phase_of bus s)
  IsServed-Driven bus s (one, heard) =
      let at_most = AtOnce-kept (writes_to bus_of phase_of bus) s.controls (λ i j c d hi hj tc td.
        one i j c d hi hj (writes_case-true (bus_of c) (phase_of c) bus tc)
          (writes_case-true (bus_of d) (phase_of d) bus td)) in
      (
        at_most,
        elim (kept-cases (reads_from bus_of phase_of bus) s.controls) [
          | inl empty ↦ inl empty
          | inr (j, d, there, t) ↦
              let (i, c, writer, drives) =
                heard j d there (reads_case-true (bus_of d) (phase_of d) bus t) in
              let some_driver =
                kept-some (writes_to bus_of phase_of bus) s.controls i c writer
                  (true-writes_case (bus_of c) (phase_of c) bus drives.0 drives.1) in
              inr (omega (arith, at_most, some_driver))
        ],
      )

  -- The bus validator accepts a step exactly when, for each of the two buses, no two places of the step
  -- have a control of that bus and of the write phase, and when a place has a control of that bus and of
  -- the read phase, some place has one of the same bus and of the write phase.
  pub check_buses-IsServed :
      (s : Step)
      → (check_buses bus_of phase_of s ≡ ok tt)
        ↔ (IsServed data_bus s.controls × IsServed address_bus s.controls)
  check_buses-IsServed s = (
    λ h.
        let driven = (check_buses-Driven bus_of phase_of s).0 h in
        (Driven-IsServed data_bus s driven.0, Driven-IsServed address_bus s driven.1),
    λ h.
        (check_buses-Driven bus_of phase_of s).1
          (IsServed-Driven data_bus s h.0, IsServed-Driven address_bus s h.1),
  )
