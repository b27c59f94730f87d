-- ===== src/Microcode/Optimizers/Sequenced.antt =====
-- The optimizers on steps that assert their step-counter control.
use irata.Prelude.{
  ℕ, ◌≤◌, ◌≡◌, refl, ap, true, false, List, [], ◌∷◌, keep, null, arith, ◌==◌, ==→eq, ltb→lt,
  if◌then◌else◌, Bool-cases, inl, inr,
}
use irata.Base.Phase
use irata.Base.Phase.{TickPhase, before, rank}
use irata.Microcode.Ir.{Step, asserts}
use irata.Microcode.Sequence.{Sequencer}
use irata.Microcode.Sequence.Laws.{Sequenced}
use irata.Microcode.Optimizers.{
  remove_empty, later_phase, earlier_phase, can_merge, merge_from, merge,
}

asserts-null : (c : ℕ) (cs : List ℕ) → asserts c cs ≡ true → null cs ≡ false
asserts-null c [] h = cc
asserts-null c (d ∷ cs) h = refl

pub remove_empty-Sequenced :
    (q : Sequencer) (steps : List Step) → Sequenced q steps → remove_empty steps ≡ steps
unfolding remove_empty
remove_empty-Sequenced q [] h = refl
remove_empty-Sequenced q (s ∷ []) h = rw (asserts-null q.reset_control s.controls h, keep)
remove_empty-Sequenced q (s ∷ t ∷ rest) h =
    rw (asserts-null q.increment_control s.controls h.0, keep)
      (ap (λ l. s ∷ l) (remove_empty-Sequenced q (t ∷ rest) h.1))

-- The choice of the later and of the earlier of two phases.
later-le :
    (p r : TickPhase) → let m = if before p r then r else p in (rank p ≤ rank m) × (rank r ≤ rank m)
later-le p r = elim (Bool-cases (before p r)) [
  | inl b ↦ rw b (omega (arith, ltb→lt (rank p) (rank r) b), omega arith)
  | inr b ↦ rw b (omega arith, ground arith)
]

earlier-le :
    (p r : TickPhase) → let m = if before r p then r else p in (rank m ≤ rank p) × (rank m ≤ rank r)
earlier-le p r = elim (Bool-cases (before r p)) [
  | inl b ↦ rw b (omega (arith, ltb→lt (rank r) (rank p) b), omega arith)
  | inr b ↦ rw b (omega arith, ground arith)
]

module _ (phase_of : ℕ → TickPhase) where
  later-best : (best : TickPhase) (cs : List ℕ) → rank best ≤ rank (later_phase phase_of best cs)
  unfolding later_phase
  later-best best [] = omega arith
  later-best best (c ∷ cs) = omega (
    arith,
    (later-le best (phase_of c)).0,
    later-best (if before best (phase_of c) then phase_of c else best) cs,
  )

  later-asserted :
      (c : ℕ) (best : TickPhase) (cs : List ℕ)
      → asserts c cs ≡ true
      → rank (phase_of c) ≤ rank (later_phase phase_of best cs)
  unfolding later_phase
  later-asserted c best [] h = cc
  later-asserted c best (d ∷ cs) h =
      let chosen = if before best (phase_of d) then phase_of d else best in
      elim (Bool-cases (d == c)) [
        | inl e ↦
            rw (← ==→eq d c e) (omega (arith, (later-le best (phase_of d)).1, later-best chosen cs))
        | inr n ↦ later-asserted c chosen cs (rw n at h)
      ]

  earlier-best :
      (best : TickPhase) (cs : List ℕ) → rank (earlier_phase phase_of best cs) ≤ rank best
  unfolding earlier_phase
  earlier-best best [] = omega arith
  earlier-best best (c ∷ cs) = omega (
    arith,
    (earlier-le best (phase_of c)).0,
    earlier-best (if before (phase_of c) best then phase_of c else best) cs,
  )

  earlier-asserted :
      (c : ℕ) (best : TickPhase) (cs : List ℕ)
      → asserts c cs ≡ true
      → rank (earlier_phase phase_of best cs) ≤ rank (phase_of c)
  unfolding earlier_phase
  earlier-asserted c best [] h = cc
  earlier-asserted c best (d ∷ cs) h =
      let chosen = if before (phase_of d) best then phase_of d else best in
      elim (Bool-cases (d == c)) [
        | inl e ↦
            rw (← ==→eq d c e)
              (omega (arith, (earlier-le best (phase_of d)).1, earlier-best chosen cs))
        | inr n ↦ earlier-asserted c chosen cs (rw n at h)
      ]

  -- Steps that each assert a control of one phase are never merged.
  pub can_merge-same_phase :
      (a b : Step) (c d : ℕ)
      → asserts c a.controls ≡ true
      → asserts d b.controls ≡ true
      → phase_of c ≡ phase_of d
      → can_merge phase_of a b ≡ false
  unfolding can_merge
  can_merge-same_phase a b c d ha hb e = ground (
    arith,
    asserts-null c a.controls ha,
    asserts-null d b.controls hb,
    later-asserted c Phase.none a.controls ha,
    earlier-asserted d Phase.clear b.controls hb,
    ap rank e,
  )

  module _ (q : Sequencer)
      (same_phase : phase_of q.increment_control ≡ phase_of q.reset_control) where
    merge_from-Sequenced :
        (s : Step) (rest : List Step)
        → Sequenced q (s ∷ rest)
        → merge_from phase_of s rest ≡ s ∷ rest
    unfolding merge_from
    merge_from-Sequenced s [] h = refl
    merge_from-Sequenced s (t ∷ []) h = rw (
      can_merge-same_phase s t q.increment_control q.reset_control h.0 h.1 same_phase,
      merge_from,
    )
    merge_from-Sequenced s (t ∷ u ∷ rest) h =
        rw
          (
            can_merge-same_phase s t q.increment_control q.increment_control h.0 h.1.0 refl,
            merge_from,
          )
          (ap (λ l. s ∷ l) (merge_from-Sequenced t (u ∷ rest) h.1))

    pub merge-Sequenced : (steps : List Step) → Sequenced q steps → merge phase_of steps ≡ steps
    unfolding merge
    merge-Sequenced [] h = refl
    merge-Sequenced (s ∷ rest) h = merge_from-Sequenced s rest h
