-- ===== src/Sim/Io/InputDevice.antt =====
-- The keyboard: sim/src/io/input_device.cpp. A ring of 16 key codes behind memory-mapped registers.
pub mod Queue
pub mod Refine
use irata.Prelude.{
  ℕ, ◌+◌, ◌-◌, ◌%◌, ◌^◌, bit_and, bit_or, Bool, true, false, not, ◌&&◌, Option, none, some, List,
  [], ◌∷◌, get_or, set, replicate, ◌==◌, if◌then◌else◌,
}
use irata.Bits.{u8}

abbrev pub queue_size : ℕ
queue_size = 16

-- `irq_line` is the CPU's latched line, which the device alone drives.
pub record InputDevice : Type 0 where
  pub queue : List ℕ
  pub read_idx : ℕ
  pub write_idx : ℕ
  pub count : ℕ
  pub irq_enabled : Bool
  pub key_state : ℕ
  pub irq_line : Bool

unfoldable pub new : InputDevice
new = record {
  queue = replicate queue_size 0;
  read_idx = 0;
  write_idx = 0;
  count = 0;
  irq_enabled = false;
  key_state = 0;
  irq_line = false;
}

abbrev pub empty : InputDevice → Bool
empty d = d.count == 0

abbrev pub full : InputDevice → Bool
full d = d.count == queue_size

abbrev pub irq_pending : InputDevice → Bool
irq_pending d = d.irq_enabled && not (empty d)

unfoldable pub inject_key : ℕ → InputDevice → InputDevice
inject_key key_code d = if full d then d else record d {
  queue = set d.queue d.write_idx key_code;
  write_idx = (d.write_idx + 1) % queue_size;
  count = d.count + 1;
}

unfoldable pub set_key_down : ℕ → InputDevice → InputDevice
set_key_down mask d = record d { key_state = u8 (bit_or d.key_state mask) }

-- `key_state_ &= ~bit`: of the complement only the low eight bits meet the key state.
unfoldable pub set_key_up : ℕ → InputDevice → InputDevice
set_key_up mask d = record d { key_state = u8 (bit_and d.key_state (2 ^ 8 - 1 - mask)) }

unfoldable pub tick_control : InputDevice → InputDevice
tick_control d = record d { irq_line = irq_pending d }

unfoldable pub pop : InputDevice → ℕ × InputDevice
pop d = if empty d then (0, d) else (
  get_or d.queue d.read_idx 0,
  record d { read_idx = (d.read_idx + 1) % queue_size; count = d.count - 1 },
)

unfoldable pub peek : InputDevice → ℕ
peek d = if empty d then 0 else get_or d.queue d.read_idx 0

unfoldable pub status : InputDevice → ℕ
status d =
    let s0 : ℕ = if not (empty d) then u8 (bit_or 0 0x01) else 0 in
    let s1 : ℕ = if full d then u8 (bit_or s0 0x02) else s0 in
    if irq_pending d then u8 (bit_or s1 0x80) else s1

-- A read has an effect at the data register alone.
unfoldable pub read : ℕ → InputDevice → ℕ × InputDevice
read address d =
    if address == 0x00
    then (status d, d)
    else if address == 0x02
    then pop d
    else if address == 0x03
    then (peek d, d)
    else if address == 0x04
    then (u8 d.count, d)
    else if address == 0x05
    then (d.key_state, d)
    else (0, d)

unfoldable pub write : ℕ → ℕ → InputDevice → InputDevice
write address value d =
    if address == 0x01 then record d { irq_enabled = not (bit_and value 0x01 == 0) } else d

-- What the host and the CPU can do to the device, and what they see.
pub data Op : Type 0 where
  inject : ℕ → Op
  key_down : ℕ → Op
  key_up : ℕ → Op
  reads : ℕ → Op
  writes : ℕ → ℕ → Op
  tick : Op

pub data Reply : Type 0 where
  done : Reply
  byte : ℕ → Reply
  line : Bool → Reply

unfoldable pub step : Op → InputDevice → Reply × InputDevice
step (inject k) d = (done, inject_key k d)
step (key_down b) d = (done, set_key_down b d)
step (key_up b) d = (done, set_key_up b d)
step (reads a) d = let (v, d') = read a d in (byte v, d')
step (writes a v) d = (done, write a v d)
step tick d = let d' = tick_control d in (line d'.irq_line, d')

unfoldable pub run : List Op → InputDevice → List Reply
run [] d = []
run (op ∷ ops) d = let (r, d') = step op d in r ∷ run ops d'
