-- ===== src/Sim/Io/InputDevice/Queue.antt =====
-- The specification of the keyboard as the code has it, where its documents leave register 5 reserved
-- and raise the interrupt when the queue ceases to be empty: a queue of at most 16 key codes, oldest
-- first, a mask of held keys and an interrupt switch.
use irata.Prelude.{
  ℕ, ◌+◌, ◌*◌, ◌-◌, ◌%◌, bit_and, bit_or, Bool, not, ◌&&◌, List, [], ◌∷◌, ◌++◌, length, null, bit,
  ◌==◌, if◌then◌else◌,
}
use irata.Bits.{u8}
use irata.Sim.Io.InputDevice.{
  Op, inject, key_down, key_up, reads, writes, tick, Reply, done, byte, line,
}

pub record Keyboard : Type 0 where
  pub keys : List ℕ
  pub held : ℕ
  pub enabled : Bool

abbrev pub wants_irq : Keyboard → Bool
wants_irq k = k.enabled && not (null k.keys)

abbrev pub oldest : List ℕ → ℕ
oldest [] = 0
oldest (x ∷ xs) = x

abbrev pub newer : List ℕ → List ℕ
newer [] = []
newer (x ∷ xs) = xs

unfoldable pub register : ℕ → Keyboard → ℕ
register address k =
    if address == 0
    then bit (not (null k.keys)) + 2 * bit (length k.keys == 16) + 128 * bit (wants_irq k)
    else if address == 2
    then oldest k.keys
    else if address == 3
    then oldest k.keys
    else if address == 4
    then length k.keys
    else if address == 5
    then k.held
    else 0

unfoldable pub step : Op → Keyboard → Reply × Keyboard
step (inject x) k =
    (done, if length k.keys == 16 then k else record k { keys = k.keys ++ (x ∷ []) })
step (key_down b) k = (done, record k { held = u8 (bit_or k.held b) })
step (key_up b) k = (done, record k { held = u8 (bit_and k.held (255 - b)) })
step (reads a) k = (byte (register a k), if a == 2 then record k { keys = newer k.keys } else k)
step (writes a v) k = (done, if a == 1 then record k { enabled = v % 2 == 1 } else k)
step tick k = (line (wants_irq k), k)

unfoldable pub run : List Op → Keyboard → List Reply
run [] k = []
run (op ∷ ops) k = let (r, k') = step op k in r ∷ run ops k'
