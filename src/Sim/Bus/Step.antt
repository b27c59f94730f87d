-- ===== src/Sim/Bus/Step.antt =====
-- A step that the bus validator accepts (microcode/src/compiler/bus_validator.cpp), on the simulator's
-- bus (sim/include/irata2/sim/bus.h).
use irata.Prelude.{
  ℕ, ◌<◌, ◌≡◌, refl, ap, ◌∙◌, subst, Bool, true, false, ◌||◌, List, [], ◌∷◌, map, any, keep, All,
  length, ◌==◌, ok, arith, Bool-cases, inl, inr, ==→eq, ==_self, ◌⊎◌, Option,
}
use irata.Base.Phase
use irata.Base.Phase.{TickPhase}
use irata.Microcode.Ir.{Step, asserts}
use irata.Microcode.Validators.{
  BusType, data_bus, address_bus, writes_to, reads_from, writers, readers, check_buses,
}
use irata.Microcode.Validators.Bus.{Driven, check_buses-Driven}
use irata.Sim.Bus.{Controls, Bus, Register, new_bus, assert_all, tick_write_all, tick_read_all}
use irata.Sim.Bus.Ticks.{
  assert_all-asserts, driving, listening, load, written, tick_write_all-none, tick_write_all-one,
  tick_read_all-none, tick_read_all-load,
}

abbrev pub DistinctWrites : List Register → Type 0
DistinctWrites [] = Unit
DistinctWrites (r ∷ rs) = All (λ q. (r.write == q.write) ≡ false) rs × DistinctWrites rs

keep-All {ℓ} :
    {A : Type 0} (P : A → Type ℓ) (p : A → Bool) (xs : List A) → All P xs → All P (keep p xs)
keep-All P p [] h = tt
keep-All P p (x ∷ xs) h = elim (Bool-cases (p x)) [
  | inl on ↦ rw (on, keep) (h.0, keep-All P p xs h.1)
  | inr off ↦ rw (off, keep) (keep-All P p xs h.1)
]

keep-true : {A : Type 0} (p : A → Bool) (xs : List A) → All (λ x. p x ≡ true) (keep p xs)
keep-true p [] = tt
keep-true p (x ∷ xs) = elim (Bool-cases (p x)) [
  | inl on ↦ rw (on, keep) (on, keep-true p xs)
  | inr off ↦ rw (off, keep) (keep-true p xs)
]

keep-DistinctWrites :
    (p : Register → Bool) (rs : List Register) → DistinctWrites rs → DistinctWrites (keep p rs)
keep-DistinctWrites p [] h = tt
keep-DistinctWrites p (r ∷ rs) h = elim (Bool-cases (p r)) [
  | inl on ↦
      rw (on, keep)
        (keep-All (λ q. (r.write == q.write) ≡ false) p rs h.0, keep-DistinctWrites p rs h.1)
  | inr off ↦ rw (off, keep) (keep-DistinctWrites p rs h.1)
]

asserts-keep :
    (p : ℕ → Bool) (c : ℕ) (xs : List ℕ)
    → asserts c xs ≡ true
    → p c ≡ true
    → asserts c (keep p xs) ≡ true
asserts-keep p c [] h on = cc
asserts-keep p c (x ∷ xs) h on = elim (Bool-cases (x == c)) [
  | inl here ↦ let kept : p x ≡ true = ap p (==→eq x c here) ∙ on in rw (kept, keep) (rw here refl)
  | inr other ↦
      let ih = asserts-keep p c xs (rw other at h) on in
      elim (Bool-cases (p x)) [ inl t ↦ rw (t, keep) (rw other ih) | inr f ↦ rw (f, keep) ih ]
]

two_writers :
    (c d : ℕ) (xs : List ℕ)
    → asserts c xs ≡ true
    → asserts d xs ≡ true
    → (c == d) ≡ false
    → 1 < length xs
two_writers c d [] h g ne = cc
two_writers c d (x ∷ []) h g ne = ground arith
two_writers c d (x ∷ y ∷ xs) h g ne = omega arith

-- A control that a filter has left, where one is left.
some_writer :
    (p : ℕ → Bool) (xs : List ℕ)
    → length (keep p xs) ≡ 1
    → (c : ℕ) × (p c ≡ true) × (asserts c xs ≡ true)
some_writer p [] h = absurd (omega arith)
some_writer p (x ∷ xs) h = elim (Bool-cases (p x)) [
  | inl on ↦ (x, on, rw (==_self x) refl)
  | inr off ↦
      let (c, on, there) = some_writer p xs (rw (off, keep) at h) in (c, on, ground (arith, there))
]

keep-empty :
    (p : ℕ → Bool) (c : ℕ) (xs : List ℕ)
    → asserts c xs ≡ true
    → p c ≡ true
    → length (keep p xs) ≡ 0
    → ⊥
keep-empty p c xs h on e = absent (keep p xs) e (asserts-keep p c xs h on)
  where
    absent : (ys : List ℕ) → length ys ≡ 0 → asserts c ys ≡ true → ⊥
    absent [] z t = cc
    absent (y ∷ ys) z t = omega arith

any-All :
    {A : Type 0} (P : A → Type 0) (p : A → Bool) (xs : List A)
    → All P xs
    → any p xs ≡ true
    → (x : A) × (p x ≡ true) × P x
any-All P p [] h on = cc
any-All P p (x ∷ xs) h on = elim (Bool-cases (p x)) [
  | inl here ↦ (x, here, h.0)
  | inr other ↦ any-All P p xs h.1 (rw other at on)
]

any-implies :
    {A : Type 0} (p q : A → Bool) (xs : List A)
    → ((x : A) → p x ≡ true → q x ≡ true)
    → any p xs ≡ true
    → any q xs ≡ true
any-implies p q [] f h = h
any-implies p q (x ∷ xs) f h = elim (Bool-cases (p x)) [
  | inl here ↦ rw (f x here) refl
  | inr other ↦
      let ih = any-implies p q xs f (rw other at h) in
      elim (Bool-cases (q x)) [ inl on ↦ rw on refl | inr off ↦ rw off ih ]
]

keep-any : {A : Type 0} (p : A → Bool) (xs : List A) → keep p xs ≡ [] → any p xs ≡ false
keep-any {A} p [] h = refl
keep-any {A} p (x ∷ xs) h = elim (Bool-cases (p x)) [
  | inl on ↦ absurd (filled x (keep p xs) (rw (on, keep) at h))
  | inr off ↦ rw off (keep-any p xs (rw (off, keep) at h))
]
  where
    filled : (y : A) (ys : List A) → (y ∷ ys) ≡ [] → ⊥
    filled y ys e = cc

module _ (bus_of : ℕ → Option BusType) (phase_of : ℕ → TickPhase) (bus : BusType) (s : Step)
    (rs : List Register) where
  -- The controls of the registers write to the bus and read from it.
  abbrev pub OnBus : Type 0
  OnBus =
      All
        (λ r.
          (writes_to bus_of phase_of bus r.write ≡ true)
          × (reads_from bus_of phase_of bus r.read ≡ true))
        rs

  -- Every control that writes to the bus is a register's.
  abbrev pub AllWriters : Type 0
  AllWriters = (c : ℕ) → writes_to bus_of phase_of bus c ≡ true → any (λ r. r.write == c) rs ≡ true

  -- What the registers have behind the two phases: nothing has moved and nothing was to move, or one
  -- register has written and every listening one holds its value.
  abbrev pub Transferred : Controls → List Register → Type 0
  Transferred controls after =
      ((driving controls rs ≡ []) × (any (listening controls) rs ≡ false) × (after ≡ rs))
      ⊎ ((d : Register) × (driving controls rs ≡ d ∷ []) × (after ≡ map (load controls d.value) rs))

  module _ (driven : Driven (writers bus_of phase_of bus s) (readers bus_of phase_of bus s))
      (distinct : DistinctWrites rs) (on_bus : OnBus) (all_writers : AllWriters)
      (controls : Controls)
      (asserted_by : (c : ℕ) → controls c ≡ (asserts c s.controls || false)) where
    from_store : (c : ℕ) → controls c ≡ true → asserts c s.controls ≡ true
    from_store c h = ground (arith, asserted_by c)

    writer :
        (r : Register)
        → writes_to bus_of phase_of bus r.write ≡ true
        → controls r.write ≡ true
        → asserts r.write (writers bus_of phase_of bus s) ≡ true
    writer r w h =
        asserts-keep (writes_to bus_of phase_of bus) r.write s.controls (from_store r.write h) w

    not_two : (d e : Register) (rest : List Register) → driving controls rs ≡ d ∷ e ∷ rest → ⊥
    not_two d e rest h =
        let on =
          subst (All (λ r. controls r.write ≡ true)) h (keep-true (λ r. controls r.write) rs) in
        let there =
          subst
            (All (λ r.
              (writes_to bus_of phase_of bus r.write ≡ true)
              × (reads_from bus_of phase_of bus r.read ≡ true)))
            h (keep-All _ (λ r. controls r.write) rs on_bus) in
        let apart =
          subst DistinctWrites h (keep-DistinctWrites (λ r. controls r.write) rs distinct) in
        let many =
          two_writers d.write e.write (writers bus_of phase_of bus s) (writer d there.0.0 on.0)
            (writer e there.1.0.0 on.1.0) apart.0.0 in
        omega (arith, many, driven.0)

    asserted_writer :
        (q : Register) (c : ℕ)
        → (q.write == c) ≡ true
        → asserts c s.controls ≡ true
        → controls q.write ≡ true
    asserted_writer q c e there =
        ap controls (==→eq q.write c e) ∙ asserted_by c ∙ ground (arith, there)

    silent : driving controls rs ≡ [] → any (listening controls) rs ≡ false
    silent h = elim (Bool-cases (any (listening controls) rs)) [
      | inl on ↦ absurd (heard on)
      | inr off ↦ off
    ]
      where
        undriven : any (λ r. controls r.write) rs ≡ true → ⊥
        undriven on = let off = keep-any (λ r. controls r.write) rs h in clash on off
          where
            clash : {b : Bool} → b ≡ true → b ≡ false → ⊥
            clash p q = cc

        heard : any (listening controls) rs ≡ true → ⊥
        heard on =
            let (r, reads, member) = any-All _ (listening controls) rs on_bus on in
            elim driven.1 [
              | inl e ↦
                  keep-empty (reads_from bus_of phase_of bus) r.read s.controls
                    (from_store r.read reads) member.1 e
              | inr one ↦
                  let (c, w, there) = some_writer (writes_to bus_of phase_of bus) s.controls one in
                  undriven (
                    any-implies (λ q. q.write == c) (λ q. controls q.write) rs
                      (λ q e. asserted_writer q c e there) (all_writers c w))
            ]

    one_transfer :
        (found : List Register)
        → driving controls rs ≡ found
        → (after_write : Bus) × (tick_write_all Phase.write controls rs new_bus ≡ ok after_write)
          × (after : List Register) × (tick_read_all Phase.read controls after_write rs ≡ ok after)
          × Transferred controls after
    unfolding new_bus
    one_transfer [] h = (
      new_bus,
      tick_write_all-none controls rs new_bus h,
      rs,
      tick_read_all-none controls new_bus rs (silent h),
      inl (h, silent h, refl),
    )
    one_transfer (d ∷ []) h = (
      written d,
      tick_write_all-one controls rs new_bus d refl h,
      map (load controls d.value) rs,
      tick_read_all-load controls d.value d.path rs,
      inr (d, h, refl),
    )
    one_transfer (d ∷ e ∷ rest) h = absurd (not_two d e rest h)

Driven-on :
    (bus_of : ℕ → Option BusType) (phase_of : ℕ → TickPhase) (bus : BusType) (s : Step)
    → check_buses bus_of phase_of s ≡ ok tt
    → Driven (writers bus_of phase_of bus s) (readers bus_of phase_of bus s)
Driven-on bus_of phase_of data_bus s h = ((check_buses-Driven bus_of phase_of s).0 h).0
Driven-on bus_of phase_of address_bus s h = ((check_buses-Driven bus_of phase_of s).0 h).1

module _ (bus_of : ℕ → Option BusType) (phase_of : ℕ → TickPhase) (bus : BusType) (s : Step)
    (rs : List Register) where
  -- Where the bus validator accepts a step, and the registers on a bus have different write controls,
  -- each with controls that write to this bus and read from it, and every control that writes to it is
  -- one of theirs, asserting the step's controls and running the write and the read phase of all the
  -- registers on the cleared bus raises no error. Either no register writes or reads and nothing
  -- changes, or one register writes and each that reads takes its value, while the others keep
  -- theirs.
  pub tick_read_all-check_buses :
      check_buses bus_of phase_of s ≡ ok tt
      → DistinctWrites rs
      → OnBus bus_of phase_of bus s rs
      → AllWriters bus_of phase_of bus s rs
      → (controls : Controls) × (assert_all Phase.control s.controls (λ c. false) ≡ ok controls)
        × (after_write : Bus) × (tick_write_all Phase.write controls rs new_bus ≡ ok after_write)
        × (after : List Register) × (tick_read_all Phase.read controls after_write rs ≡ ok after)
        × Transferred bus_of phase_of bus s rs controls after
  tick_read_all-check_buses h distinct on_bus all_writers =
      let (controls, done, store) = assert_all-asserts s.controls (λ c. false) in
      let (after_write, wrote, after, was_read, moved) =
        one_transfer bus_of phase_of bus s rs (Driven-on bus_of phase_of bus s h) distinct on_bus
          all_writers controls store (driving controls rs) refl in
      (controls, done, after_write, wrote, after, was_read, moved)
