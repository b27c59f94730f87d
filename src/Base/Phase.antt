-- ===== src/Base/Phase.antt =====
-- `TickPhase` of base/include/irata2/base/tick_phase.h, in the order of the enumeration.
use irata.Prelude.{ℕ, Bool, ltb}

pub data TickPhase : Type 0 where
  none control write read process clear : TickPhase

-- The enumerators' values, which the comparisons of two phases read.
abbrev pub rank : TickPhase → ℕ
rank none = 0
rank control = 1
rank write = 2
rank read = 3
rank process = 4
rank clear = 5

abbrev pub before : TickPhase → TickPhase → Bool
before p q = ltb (rank p) (rank q)

pub TickPhase-discrete : Discrete TickPhase
TickPhase-discrete = hlevel
