-- ===== src/Sim/Alu/Flags.antt =====
-- What the unit's writes of the carry and the overflow flag leave in the status byte.
use irata.Prelude.{ℕ, ◌<◌, ◌≡◌, Bool, arith, ◌==◌, if◌then◌else◌}
use irata.Base.Byte.{IsByte}
use irata.Sim.Status.{value, assign, carry, overflow}
use irata.Sim.Status.Laws.{value-assign, assign-IsByte}
use irata.Sim.Alu.{set_carry_out}

module _ (s : ℕ) (hs : IsByte s) (c : Bool) where
  pub set_carry_out-IsByte : IsByte (set_carry_out s c)
  unfolding set_carry_out
  set_carry_out-IsByte = assign-IsByte s carry c hs (omega arith)

  pub value-set_carry_out :
      (j : ℕ) → j < 8 → value (set_carry_out s c) j ≡ (if carry == j then c else value s j)
  unfolding set_carry_out
  value-set_carry_out j hj = value-assign s carry j c hs (omega arith) hj

  pub both_flags-IsByte : (v : Bool) → IsByte (assign (set_carry_out s c) overflow v)
  both_flags-IsByte v =
      assign-IsByte (set_carry_out s c) overflow v set_carry_out-IsByte (omega arith)

  pub value-both_flags :
      (v : Bool) (j : ℕ)
      → j < 8
      → value (assign (set_carry_out s c) overflow v) j
        ≡ (if overflow == j then v else if carry == j then c else value s j)
  value-both_flags v j hj = ground (
    arith,
    value-assign (set_carry_out s c) overflow j v set_carry_out-IsByte (omega arith) hj,
    value-set_carry_out j hj,
  )
