-- ===== src/Sim/Cpu/Run.antt =====
-- The runs of the processor: sim/src/cpu.cpp.
use irata.Prelude.{
  ℕ, zero, suc, ◌+◌, ◌-◌, ◌≤◌, ◌^◌, ◌<◌, ◌≡◌, refl, sym, ap, ◌∙◌, Bool, true, false, not, ◌&&◌,
  some, ltb, if◌then◌else◌, if_both, Result, ok, err, >>=-eq-ok, ok_injective, ◌⊎◌, inl, inr, arith,
  Bool-cases, ltb→lt, and_true,
}
use irata.Base.Phase
use irata.Sim.Bus.{SimError}
use irata.Sim.Cpu.{
  Components, Cpu, tick_process, tick_phases, tick, u64, cycles_since, run_loop, run_until_halt,
  run_result, RunResult, timeout, halt, crash,
}

Result-cases : {E A : Type 0} (r : Result E A) → ((e : E) × (r ≡ err e)) ⊎ ((a : A) × (r ≡ ok a))
Result-cases (err e) = inl (e, refl)
Result-cases (ok a) = inr (a, refl)

not-true : (b : Bool) → not b ≡ true → b ≡ false
not-true b h = ground arith

one_more :
    (start max_cycles k before after : ℕ)
    → start < 2 ^ 64
    → max_cycles < 2 ^ 64
    → before < 2 ^ 64
    → u64 (before + 2 ^ 64 - start) < max_cycles
    → u64 (before + 2 ^ 64 - start) + k ≡ max_cycles
    → after ≡ u64 (before + 1)
    → u64 (after + 2 ^ 64 - start) + (k - 1) ≡ max_cycles
one_more start max_cycles k before after s l b more h e = omega arith

module _ (m : Components) where
  tick_process-cycle_count :
      (c next : Cpu m) → tick_process m c ≡ ok next → next.cycle_count ≡ c.cycle_count
  unfolding tick_process
  tick_process-cycle_count c next h =
      let (below, a, h1) = >>=-eq-ok (m.tick_process c.current_phase c.components) _ h in
      let (stop, b, h2) = >>=-eq-ok (m.halt_asserted c.current_phase below) _ h1 in
      let (fault, d, h3) = >>=-eq-ok (m.crash_asserted c.current_phase below) _ h2 in
      let (start, e, h4) = >>=-eq-ok (m.start_asserted c.current_phase below) _ h3 in
      ap (λ (p : Cpu m). p.cycle_count) (sym (ok_injective h4))
      ∙ if_both (λ (p : Cpu m). p.cycle_count ≡ c.cycle_count) start refl refl

  tick_phases-cycle_count :
      (c next : Cpu m) → tick_phases m c ≡ ok next → next.cycle_count ≡ u64 (c.cycle_count + 1)
  unfolding tick_phases
  tick_phases-cycle_count c next h =
      let (controlled, a, h1) = >>=-eq-ok (m.tick_control Phase.control c.components) _ h in
      let (written, b, h2) = >>=-eq-ok (m.tick_write Phase.write controlled) _ h1 in
      let (was_read, d, h3) = >>=-eq-ok (m.tick_read Phase.read written) _ h2 in
      let (processed, e, h4) =
        >>=-eq-ok
          (tick_process m (record c { components = was_read; current_phase = Phase.process })) _
          h3 in
      let (cleared, f, h5) = >>=-eq-ok (m.tick_clear Phase.clear processed.components) _ h4 in
      ap (λ (p : Cpu m). p.cycle_count) (sym (ok_injective h5))
      ∙ ap (λ (n : ℕ). u64 (n + 1))
          (tick_process-cycle_count
            (record c { components = was_read; current_phase = Phase.process }) processed e)

  tick-phases : (c : Cpu m) → c.halted ≡ false → tick m c ≡ tick_phases m c
  unfolding tick
  tick-phases c going = rw going refl

  -- How the loop may stop: by an error of a component, or within the bound and halted or at it.
  abbrev pub Stops : ℕ → ℕ → Result SimError (Cpu m) → Type 0
  Stops start max_cycles (err thrown) = Unit
  Stops start max_cycles (ok c) =
      (cycles_since m start c ≤ max_cycles)
      × (c.cycle_count < 2 ^ 64)
      × ((c.halted ≡ true) ⊎ ((c.halted ≡ false) × (cycles_since m start c ≡ max_cycles)))

  run_loop-Stops :
      (fuel start max_cycles k : ℕ) (c : Cpu m)
      → start < 2 ^ 64
      → max_cycles < 2 ^ 64
      → c.cycle_count < 2 ^ 64
      → cycles_since m start c + k ≡ max_cycles
      → k < fuel
      → (r : Result SimError (Cpu m)) × (run_loop m fuel start max_cycles c ≡ some r)
        × Stops start max_cycles r
  unfolding run_loop
  run_loop-Stops zero start max_cycles k c s l b h enough = absurd (omega arith)
  run_loop-Stops (suc fuel) start max_cycles k c s l b h enough =
      elim (Bool-cases (not c.halted && ltb (cycles_since m start c) max_cycles)) [
        | inl on ↦
            let (going, before) = and_true (not c.halted) _ on in
            let more : cycles_since m start c < max_cycles = ltb→lt _ _ before in
            elim (Result-cases (tick m c)) [
              | inl (thrown, e) ↦ (err thrown, rw (on, run_loop) (rw (e, run_loop) refl), tt)
              | inr (next, e) ↦
                  let counted =
                    tick_phases-cycle_count c next (sym (tick-phases c (not-true _ going)) ∙ e) in
                  let (r, run, stops) =
                    run_loop-Stops fuel start max_cycles (k - 1) next s l (omega (arith, counted))
                      (one_more start max_cycles k c.cycle_count next.cycle_count s l b more h
                        counted)
                      (omega arith) in
                  (r, rw (on, run_loop) (rw (e, run_loop) run), stops)
            ]
        | inr off ↦
            (ok c, rw (off, run_loop) refl, (omega arith, b, stopped (Bool-cases c.halted) off))
      ]
    where
      stopped :
          ((c.halted ≡ true) ⊎ (c.halted ≡ false))
          → (not c.halted && ltb (cycles_since m start c) max_cycles) ≡ false
          → (c.halted ≡ true) ⊎ ((c.halted ≡ false) × (cycles_since m start c ≡ max_cycles))
      stopped (inl on) off = inl on
      stopped (inr off) test = inr (off, ground (arith, off, test, h))

  -- What `RunUntilHalt` has done when it returns.
  abbrev pub Outcome : ℕ → Cpu m → Result SimError (Cpu m × RunResult) → Type 0
  Outcome max_cycles c (err thrown) = Unit
  Outcome max_cycles c (ok (stopped, result)) =
      (result.cycles ≤ max_cycles)
      × (stopped.cycle_count ≡ u64 (c.cycle_count + result.cycles))
      × (((stopped.halted ≡ true) × (result.reason ≡ (if stopped.crashed then crash else halt)))
          ⊎ ((stopped.halted ≡ false) × (result.reason ≡ timeout) × (result.cycles ≡ max_cycles)))

  -- `RunUntilHalt` with a bound always returns, on any fuel above the bound, when the cycle counter and
  -- the bound are numbers of 64 bits: either a component has thrown, or it has made at most that many
  -- cycles, as many as the cycle counter has gone on by modulo 2^64, and it has stopped either halted,
  -- for a crash exactly if the crash flag is set, or not halted, for a timeout with the whole bound used.
  pub run_until_halt-Outcome :
      (fuel max_cycles : ℕ) (c : Cpu m)
      → c.cycle_count < 2 ^ 64
      → max_cycles < 2 ^ 64
      → max_cycles < fuel
      → (r : Result SimError (Cpu m × RunResult)) × (run_until_halt m fuel max_cycles c ≡ some r)
        × Outcome max_cycles c r
  unfolding run_until_halt
  run_until_halt-Outcome fuel max_cycles c b l enough =
      let (r, run, stops) =
        run_loop-Stops fuel c.cycle_count max_cycles max_cycles c b l b (none_yet c.cycle_count b)
          enough in
      finish r run stops
    where
      gone_on :
          (n after : ℕ) → n < 2 ^ 64 → after < 2 ^ 64 → after ≡ u64 (n + u64 (after + 2 ^ 64 - n))
      gone_on n after h g = omega arith

      reason :
          (s : Cpu m)
          → ((s.halted ≡ true)
              ⊎ ((s.halted ≡ false) × (cycles_since m c.cycle_count s ≡ max_cycles)))
          → ((s.halted ≡ true)
              × ((run_result m c.cycle_count s).reason ≡ (if s.crashed then crash else halt)))
            ⊎ ((s.halted ≡ false)
                × ((run_result m c.cycle_count s).reason ≡ timeout)
                × ((run_result m c.cycle_count s).cycles ≡ max_cycles))
      reason s (inl on) =
          inl (on, ap (λ (x : Bool). if x then (if s.crashed then crash else halt) else timeout) on)
      reason s (inr (off, all)) = inr (
        off,
        ap (λ (x : Bool). if x then (if s.crashed then crash else halt) else timeout) off,
        all,
      )

      none_yet : (n : ℕ) → n < 2 ^ 64 → u64 (n + 2 ^ 64 - n) + max_cycles ≡ max_cycles
      none_yet n h = omega arith

      finish :
          (r : Result SimError (Cpu m))
          → run_loop m fuel c.cycle_count max_cycles c ≡ some r
          → Stops c.cycle_count max_cycles r
          → (r : Result SimError (Cpu m × RunResult)) × (run_until_halt m fuel max_cycles c
              ≡ some r)
            × Outcome max_cycles c r
      finish (err thrown) run stops = (err thrown, rw (run, run_until_halt) refl, tt)
      finish (ok stopped) run stops = (
        ok (stopped, run_result m c.cycle_count stopped),
        rw (run, run_until_halt) refl,
        (stops.0, gone_on c.cycle_count stopped.cycle_count b stops.1, reason stopped stops.2),
      )
