-- ===== src/Sim/Bus.antt =====
-- Control signals, a bus and the components on it: control.h, bus.h, component_with_bus.h and
-- register_with_bus.h of sim/include/irata2/sim. A control is a reference, and the `asserted_` of all
-- the controls is one store, since components share them.
pub mod Ticks
pub mod Step
use irata.Prelude.{
  Text, ℕ, Bool, true, false, not, Option, none, some, List, [], ◌∷◌, ◌==◌, if◌then◌else◌, Result,
  ok, err, ◌>>=◌, ◌>>◌, throw_if,
}
use irata.Base.Phase
use irata.Base.Phase.{TickPhase, rank}

pub data SimError : Type 0 where
  control_outside_phase bus_no_value write_outside_phase already_written : SimError
  read_outside_phase read_before_write : SimError

abbrev pub is_phase : TickPhase → TickPhase → Bool
is_phase current expected = rank current == rank expected

-- `asserted_` of each control.
abbrev pub Controls : Type 0
Controls = ℕ → Bool

-- `ControlBase::EnsurePhase`
unfoldable pub ensure_phase : TickPhase → TickPhase → Result SimError (Unit {0})
ensure_phase current expected = throw_if (not (is_phase current expected)) control_outside_phase

-- `ControlBase::asserted`, for a control of the phase `phase`.
unfoldable pub asserted : TickPhase → TickPhase → ℕ → Controls → Result SimError Bool
unfolding ensure_phase
asserted current phase control controls = ensure_phase current phase >> ok (controls control)

-- `ControlBase::Set`
unfoldable pub set_control : TickPhase → ℕ → Bool → Controls → Result SimError Controls
unfolding ensure_phase
set_control current control on controls =
    ensure_phase current Phase.control >> ok (λ c. if c == control then on else controls c)

-- `ControlBase::Assert`
unfoldable pub assert_control : TickPhase → ℕ → Controls → Result SimError Controls
unfolding ensure_phase
assert_control current control controls =
    ensure_phase current Phase.control >> ok (λ c. if c == control then true else controls c)

-- `ControlBase::Clear`
unfoldable pub clear_control : TickPhase → ℕ → Controls → Result SimError Controls
unfolding ensure_phase
clear_control current control controls =
    ensure_phase current Phase.control >> ok (λ c. if c == control then false else controls c)

-- The `TickClear` of every control: those that reset themselves, and the latched ones.
unfoldable pub clear_controls : (ℕ → Bool) → Controls → Controls
clear_controls auto_reset controls control = if auto_reset control then false else controls control

-- The loop of `Controller::TickControl`.
unfoldable pub assert_all : TickPhase → List ℕ → Controls → Result SimError Controls
unfolding assert_control
assert_all current [] controls = ok controls
assert_all current (c ∷ cs) controls =
    (assert_control current c controls >>= λ now. assert_all current cs now)

pub record Bus : Type 0 where
  pub value : Option ℕ
  pub writer_path : Text
  pub wrote_this_tick : Bool

unfoldable pub new_bus : Bus
new_bus = record { value = none; writer_path = []; wrote_this_tick = false }

unfoldable pub bus_value : Bus → Result SimError ℕ
bus_value bus = elim bus.value [ none ↦ err bus_no_value | some v ↦ ok v ]

unfoldable pub bus_write : TickPhase → ℕ → Text → Bus → Result SimError Bus
bus_write current v path bus = do
  throw_if (not (is_phase current Phase.write)) write_outside_phase
  throw_if bus.wrote_this_tick already_written
  ok (record { value = some v; writer_path = path; wrote_this_tick = true })

unfoldable pub bus_read : TickPhase → Bus → Result SimError ℕ
bus_read current bus =
    throw_if (not (is_phase current Phase.read)) read_outside_phase >> elim bus.value [
      | none ↦ err read_before_write
      | some v ↦ throw_if (not bus.wrote_this_tick) read_before_write >> ok v
    ]

unfoldable pub clear_bus : Bus → Bus
clear_bus bus = record { value = none; writer_path = []; wrote_this_tick = false }

-- A register on the bus, with its two controls.
pub record Register : Type 0 where
  pub path : Text
  pub write : ℕ
  pub read : ℕ
  pub value : ℕ

-- `ComponentWithBus::TickWrite`
unfoldable pub tick_write : TickPhase → Controls → Register → Bus → Result SimError Bus
unfolding asserted bus_write
tick_write current controls r bus =
    (asserted current Phase.write r.write controls >>= λ on.
    if on then bus_write current r.value r.path bus else ok bus)

-- `ComponentWithBus::TickRead`
unfoldable pub tick_read : TickPhase → Controls → Bus → Register → Result SimError Register
unfolding asserted bus_read
tick_read current controls bus r =
    (asserted current Phase.read r.read controls >>= λ on.
    if on then (bus_read current bus >>= λ v. ok (record r { value = v })) else ok r)

-- `RegisterWithBus::TickProcess`, with the register's reset control.
unfoldable pub tick_process : TickPhase → Controls → ℕ → Register → Result SimError Register
unfolding asserted
tick_process current controls reset r =
    (asserted current Phase.process reset controls >>= λ on.
    ok (if on then record r { value = 0 } else r))

-- `Component::TickWrite` and `TickRead` of the parent of some registers.
unfoldable pub tick_write_all : TickPhase → Controls → List Register → Bus → Result SimError Bus
unfolding tick_write
tick_write_all current controls [] bus = ok bus
tick_write_all current controls (r ∷ rs) bus =
    (tick_write current controls r bus >>= λ now. tick_write_all current controls rs now)

unfoldable pub tick_read_all :
    TickPhase → Controls → Bus → List Register → Result SimError (List Register)
unfolding tick_read
tick_read_all current controls bus [] = ok []
tick_read_all current controls bus (r ∷ rs) =
    (tick_read current controls bus r >>= λ now.
    tick_read_all current controls bus rs >>= λ others. ok (now ∷ others))
