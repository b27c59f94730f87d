-- ===== src/Sim/Io/InputDevice/Refine.antt =====
-- The keyboard's ring, sim/src/io/input_device.cpp, against its queue.
use irata.Prelude.{
  ℕ, zero, suc, ◌+◌, ◌-◌, ◌%◌, ◌≤◌, ◌<◌, ◌≡◌, ◌≢◌, refl, ap, ap₂, ◌∙◌, false, List, [], ◌∷◌, ◌++◌,
  length, null, get_or, set, arith, ◌==◌, if◌then◌else◌, length-set, get_or-set_self, get_or-set_ne,
}
use irata.Bits.{bit_0-test}
use irata.Sim.Io.InputDevice.{
  InputDevice, new, inject_key, set_key_down, set_key_up, tick_control, pop, peek, status, read,
  write, Op, inject, key_down, key_up, reads, writes, tick, done, byte, step, run,
}
use irata.Sim.Io.InputDevice.Queue
use irata.Sim.Io.InputDevice.Queue.{Keyboard, oldest, newer}

pub record IsValid (d : InputDevice) : Type 0 where
  pub sixteen : length d.queue ≡ 16
  pub read_in : d.read_idx < 16
  pub count_in : d.count ≤ 16
  pub write_at : d.write_idx ≡ (d.read_idx + d.count) % 16

-- The `n` codes of the ring from index `i` on.
abbrev pub stored : List ℕ → ℕ → ℕ → List ℕ
stored q i zero = []
stored q i (suc n) = get_or q i 0 ∷ stored q ((i + 1) % 16) n

abbrev pub view : InputDevice → Keyboard
view d = record {
  keys = stored d.queue d.read_idx d.count;
  held = d.key_state;
  enabled = d.irq_enabled;
}

length-stored : (q : List ℕ) (i n : ℕ) → length (stored q i n) ≡ n
length-stored q i zero = refl
length-stored q i (suc n) = ap suc (length-stored q ((i + 1) % 16) n)

null-stored : (q : List ℕ) (i n : ℕ) → null (stored q i n) ≡ (n == 0)
null-stored q i zero = refl
null-stored q i (suc n) = ground arith

oldest-stored :
    (q : List ℕ) (i n : ℕ) → oldest (stored q i n) ≡ (if n == 0 then 0 else get_or q i 0)
oldest-stored q i zero = refl
oldest-stored q i (suc n) = ground arith

newer-stored :
    (q : List ℕ) (i n : ℕ) → n ≢ 0 → newer (stored q i n) ≡ stored q ((i + 1) % 16) (n - 1)
newer-stored q i zero h = absurd (h refl)
newer-stored q i (suc n) h = ap (stored q ((i + 1) % 16)) (omega arith)

-- A write just behind the stored codes adds one.
stored-set :
    (q : List ℕ) (v n i w : ℕ)
    → length q ≡ 16
    → i < 16
    → n < 16
    → w ≡ (i + n) % 16
    → stored (set q w v) i (suc n) ≡ stored q i n ++ (v ∷ [])
stored-set q v zero i w len hi hn e =
    let e' : i ≡ w = omega arith in
    ap (λ (x : ℕ). x ∷ []) (rw e' (get_or-set_self q w v 0 (omega arith)))
stored-set q v (suc n) i w len hi hn e =
    ap₂ ◌∷◌ (get_or-set_ne q w i v 0 (omega arith))
      (stored-set q v n ((i + 1) % 16) w len (omega arith) (omega arith) (omega arith))

new-IsValid : IsValid new
unfolding new
new-IsValid = omega arith

module _ (d : InputDevice) (v : IsValid d) where
  inject-refines :
      (k : ℕ)
      → IsValid (inject_key k d) × ((done, view (inject_key k d)) ≡ Queue.step (inject k) (view d))
  unfolding inject_key Queue.step
  inject-refines k = (
    ground (arith, length-set d.queue d.write_idx k),
    ground (
      arith,
      length-stored d.queue d.read_idx d.count,
      stored-set d.queue k d.count d.read_idx d.write_idx,
    ),
  )

  pop-refines :
      IsValid (pop d).1
      × ((pop d).0 ≡ oldest (view d).keys)
      × (view (pop d).1 ≡ record (view d) { keys = newer (view d).keys })
  unfolding pop
  pop-refines = (
    ground arith,
    ground (arith, oldest-stored d.queue d.read_idx d.count),
    ground (arith, newer-stored d.queue d.read_idx d.count),
  )

  status-refines : status d ≡ Queue.register 0 (view d)
  unfolding status Queue.register
  status-refines =
      ground
        (arith, length-stored d.queue d.read_idx d.count, null-stored d.queue d.read_idx d.count)

  read-refines :
      (a : ℕ)
      → IsValid (read a d).1
        × ((byte (read a d).0, view (read a d).1) ≡ Queue.step (reads a) (view d))
  unfolding read Queue.step Queue.register peek
  read-refines a = (
    ground (arith, pop-refines),
    ground (
      arith,
      pop-refines,
      status-refines,
      oldest-stored d.queue d.read_idx d.count,
      length-stored d.queue d.read_idx d.count,
    ),
  )

  write-refines :
      (a x : ℕ)
      → IsValid (write a x d) × ((done, view (write a x d)) ≡ Queue.step (writes a x) (view d))
  unfolding write Queue.step
  write-refines a x = (ground arith, ground (arith, bit_0-test x))

-- One operation on a device whose ring is well formed leaves it well formed, replies as the queue
-- does and leaves the device holding the queue's new contents.
pub step_refines :
    (op : Op) (d : InputDevice)
    → IsValid d
    → IsValid (step op d).1 × (((step op d).0, view (step op d).1) ≡ Queue.step op (view d))
unfolding step
step_refines (inject k) d v = inject-refines d v k
step_refines (key_down b) d v = unfold set_key_down Queue.step in (omega arith, refl)
step_refines (key_up b) d v = unfold set_key_up Queue.step in (omega arith, refl)
step_refines (reads a) d v = read-refines d v a
step_refines (writes a x) d v = write-refines d v a x
step_refines tick d v =
    unfold tick_control Queue.step in
    (omega arith, ground (arith, null-stored d.queue d.read_idx d.count))

run-refines_from :
    (ops : List Op) (d : InputDevice) → IsValid d → run ops d ≡ Queue.run ops (view d)
unfolding run Queue.run
run-refines_from [] d v = refl
run-refines_from (op ∷ ops) d v =
    let (v', e) = step_refines op d v in
    ap₂ ◌∷◌ (ap (λ p. p.0) e)
      (run-refines_from ops (step op d).1 v' ∙ ap (λ p. Queue.run ops p.1) e)

-- No sequence of key events, register reads and writes and ticks tells a new device from the empty
-- queue of at most 16 key codes: every reply, the interrupt line's included, is the queue's. Register 5
-- replies with the mask of the held keys, and the line is a level: each tick sets it to whether the
-- interrupt is enabled and the queue not empty.
pub run_refines :
    (ops : List Op) → run ops new ≡ Queue.run ops (record { keys = []; held = 0; enabled = false })
run_refines ops = run-refines_from ops new new-IsValid ∙ unfold new in refl
