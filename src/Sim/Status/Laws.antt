-- ===== src/Sim/Status/Laws.antt =====
-- Reading and writing flags of the status byte: one table over the byte and the two indices.
use irata.Prelude.{
  ℕ, ◌<◌, ◌≡◌, refl, Bool, true, false, not, ◌&&◌, arith, ◌==◌, ltb, ltb→lt, same, if◌then◌else◌,
  bit_and,
}
use irata.Bits.{bit_7-test, holds_below, holds_below-at}
use irata.Base.Byte.{IsByte}
use irata.Sim.Status.{value, assign, tick_process, analyze, zero_flag, negative}

abbrev assigned : Bool → ℕ → ℕ → ℕ → Bool
assigned on k j s =
    same (value (assign s k on) j) (if k == j then on else value s j) && ltb (assign s k on) 256

table : Bool → Bool
table on = holds_below 8 (λ k. holds_below 8 (λ j. holds_below 256 (assigned on k j)))

table_on : table true ≡ true
unfolding table value assign
table_on = refl

table_off : table false ≡ true
unfolding table value assign
table_off = refl

table_true : (on : Bool) → table on ≡ true
table_true true = table_on
table_true false = table_off

same→eq : (a b : Bool) → same a b ≡ true → a ≡ b
same→eq a b h = ground arith

and_left : (a b : Bool) → (a && b) ≡ true → (a ≡ true) × (b ≡ true)
and_left a b h = ground arith

assigned-true : (on : Bool) (k j s : ℕ) → k < 8 → j < 8 → IsByte s → assigned on k j s ≡ true
unfolding table
assigned-true on k j s hk hj hs =
    holds_below-at 256 (assigned on k j) s
      (holds_below-at 8 (λ j'. holds_below 256 (assigned on k j')) j
        (holds_below-at 8 (λ k'. holds_below 8 (λ j'. holds_below 256 (assigned on k' j'))) k
          (table_true on) hk)
        hj)
      hs

-- After a flag is assigned it has that value, and every other flag has the value it had.
pub value-assign :
    (s k j : ℕ) (on : Bool)
    → IsByte s
    → k < 8
    → j < 8
    → value (assign s k on) j ≡ (if k == j then on else value s j)
value-assign s k j on hs hk hj = same→eq _ _ (and_left _ _ (assigned-true on k j s hk hj hs)).0

pub assign-IsByte : (s k : ℕ) (on : Bool) → IsByte s → k < 8 → IsByte (assign s k on)
assign-IsByte s k on hs hk =
    ltb→lt _ _ (and_left _ _ (assigned-true on k 0 s hk (omega arith) hs)).1

-- A flag's two controls: neither leaves the byte alone, and of both the set control wins.
pub value-tick_process :
    (want_set want_clear : Bool) (s k j : ℕ)
    → IsByte s
    → k < 8
    → j < 8
    → value (tick_process want_set want_clear k s) j ≡ (
        if k == j
        then (if want_set then true else if want_clear then false else value s j)
        else value s j)
unfolding tick_process
value-tick_process want_set want_clear s k j hs hk hj =
    ground (arith, value-assign s k j want_set hs hk hj)

-- The analyzer sets the zero flag exactly for the byte 0 and the negative flag exactly for a byte
-- from 0x80 on, and leaves the other six flags alone.
pub value-analyze :
    (byte s j : ℕ)
    → IsByte byte
    → IsByte s
    → j < 8
    → value (analyze byte s) j ≡ (
        if negative == j
        then not (ltb byte 0x80)
        else if zero_flag == j
        then byte == 0
        else value s j)
unfolding analyze
value-analyze byte s j hb hs hj = ground (
  arith,
  bit_7-test byte,
  value-assign (assign s zero_flag (byte == 0)) negative j (not (bit_and byte 0x80 == 0)),
  assign-IsByte s zero_flag (byte == 0),
  value-assign s zero_flag j (byte == 0),
)
