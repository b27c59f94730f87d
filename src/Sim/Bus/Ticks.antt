-- ===== src/Sim/Bus/Ticks.antt =====
-- The phases of a tick on one bus: sim/include/irata2/sim/bus.h and component_with_bus.h.
use irata.Prelude.{
  ℕ, ◌≡◌, refl, ◌∙◌, subst, Bool, true, false, ◌||◌, some, List, [], ◌∷◌, map, any, keep, ◌==◌,
  if◌then◌else◌, ok, arith, Bool-cases, inl, inr, or_false, Text,
}
use irata.Base.Phase
use irata.Microcode.Ir.{asserts}
use irata.Sim.Bus.{
  Controls, Bus, Register, assert_all, assert_control, ensure_phase, asserted, bus_write, bus_read,
  tick_write, tick_read, tick_write_all, tick_read_all,
}

-- The controls after `Assert` of each of a list.
pub assert_all-asserts :
    (controls : List ℕ) (before : Controls)
    → (now : Controls) × (assert_all Phase.control controls before ≡ ok now)
      × ((c : ℕ) → now c ≡ (asserts c controls || before c))
unfolding assert_all assert_control ensure_phase
assert_all-asserts [] before = (before, refl, λ c. refl)
assert_all-asserts (x ∷ xs) before =
    let (now, done, all) = assert_all-asserts xs (λ c. if c == x then true else before c) in
    (now, done, λ c. all c ∙ ground (arith))

-- The bus behind a write of a register.
abbrev pub written : Register → Bus
written r = record { value = some r.value; writer_path = r.path; wrote_this_tick = true }

cons_nil {ℓ} : {A : Type ℓ} (x : A) (xs : List A) → (x ∷ xs) ≡ [] → ⊥
cons_nil x xs h = cc

module _ (controls : Controls) where
  -- The registers that write to the bus in this tick.
  abbrev pub driving : List Register → List Register
  driving = keep (λ r. controls r.write)

  abbrev pub listening : Register → Bool
  listening r = controls r.read

  -- A register that has read `v`, if its control says so.
  abbrev pub load : ℕ → Register → Register
  load v r = if controls r.read then record r { value = v } else r

  pub tick_write_all-none :
      (rs : List Register) (bus : Bus)
      → driving rs ≡ []
      → tick_write_all Phase.write controls rs bus ≡ ok bus
  unfolding tick_write_all tick_write asserted ensure_phase
  tick_write_all-none [] bus h = refl
  tick_write_all-none (r ∷ rs) bus h = elim (Bool-cases (controls r.write)) [
    | inl on ↦ absurd (cons_nil r (driving rs) (rw (on, keep) at h))
    | inr off ↦ rw off (tick_write_all-none rs bus (rw (off, keep) at h))
  ]

  pub tick_write_all-one :
      (rs : List Register) (bus : Bus) (d : Register)
      → bus.wrote_this_tick ≡ false
      → driving rs ≡ d ∷ []
      → tick_write_all Phase.write controls rs bus ≡ ok (written d)
  unfolding tick_write_all tick_write asserted ensure_phase bus_write
  tick_write_all-one [] bus d free h = cc
  tick_write_all-one (r ∷ rs) bus d free h = elim (Bool-cases (controls r.write)) [
    | inl on ↦
        let here : (r ∷ driving rs) ≡ (d ∷ []) = rw (on, keep) at h in
        let same : r ≡ d = cc in
        let others : driving rs ≡ [] = cc in
        rw (on, free)
          (subst
            (λ (x : Register). tick_write_all Phase.write controls rs (written r) ≡ ok (written x))
            same (tick_write_all-none rs (written r) others))
    | inr off ↦ rw off (tick_write_all-one rs bus d free (rw (off, keep) at h))
  ]

  pub tick_read_all-none :
      (bus : Bus) (rs : List Register)
      → any listening rs ≡ false
      → tick_read_all Phase.read controls bus rs ≡ ok rs
  unfolding tick_read_all tick_read asserted ensure_phase
  tick_read_all-none bus [] h = refl
  tick_read_all-none bus (r ∷ rs) h =
      let (off, others) = or_false (controls r.read) (any listening rs) h in
      rw (off, tick_read_all-none bus rs others) refl

  pub tick_read_all-load :
      (v : ℕ) (path : Text) (rs : List Register)
      → tick_read_all Phase.read controls
          (record { value = some v; writer_path = path; wrote_this_tick = true })
          rs
        ≡ ok (map (load v) rs)
  unfolding tick_read_all tick_read asserted ensure_phase bus_read
  tick_read_all-load v path [] = refl
  tick_read_all-load v path (r ∷ rs) = elim (Bool-cases (controls r.read)) [
    | inl on ↦ rw (on, tick_read_all-load v path rs) refl
    | inr off ↦ rw (off, tick_read_all-load v path rs) refl
  ]
