-- ===== src/Sim/Counter.antt =====
-- The counting registers: sim/include/irata2/sim/counter.h and local_counter.h (the stack pointer
-- and the step counter, both bytes), and sim/include/irata2/sim/program_counter.h.
use irata.Prelude.{
  ℕ, ◌+◌, ◌-◌, ◌%◌, ◌^◌, ◌≡◌, bit_and, Bool, true, false, arith, ltb, if◌then◌else◌,
}
use irata.Bits.{u16, u32, and_0xffff}
use irata.Base.Byte
use irata.Base.Byte.{IsByte}
use irata.Base.Word
use irata.Base.Word.{IsWord}

-- `LocalCounter<Byte>::TickProcess` and `Counter<Byte>::TickProcess`, which have one text.
unfoldable pub tick_counter : Bool → Bool → Bool → ℕ → ℕ
tick_counter reset increment decrement value =
    if reset
    then 0
    else if increment
    then Byte.add value 1
    else if decrement
    then Byte.sub value 1
    else value

-- The program counter and its offset register.
pub record ProgramCounter : Type 0 where
  pub value : ℕ
  pub signed_offset : ℕ

-- The process controls of a tick.
pub record Controls : Type 0 where
  pub reset : Bool
  pub increment : Bool
  pub add_signed_offset : Bool

-- `static_cast<uint32_t>(int32_t(pc) + int8_t(offset))`
unfoldable pub offset_sum : ℕ → ℕ → ℕ
offset_sum value offset = u32 (value + (if ltb offset 128 then offset else 2 ^ 32 + offset - 256))

-- `ProgramCounter::TickProcess`
unfoldable pub tick_process : Controls → ProgramCounter → ProgramCounter
unfolding offset_sum
tick_process c pc =
    if c.reset
    then record pc { value = 0 }
    else let stepped = if c.increment then Word.add pc.value 1 else pc.value in
      record pc {
        value =
            if c.add_signed_offset
            then u16 (bit_and (offset_sum stepped pc.signed_offset) 0xffff)
            else stepped;
      }

-- `BytePort::SetValue` of the program counter's two byte ports.
unfoldable pub set_byte : Bool → ℕ → ProgramCounter → ProgramCounter
set_byte is_high value pc =
    if is_high
    then record pc { value = Word.of_bytes value (Word.low pc.value) }
    else record pc { value = Word.of_bytes (Word.high pc.value) value }

-- What the asserted controls add to the program counter, modulo 2 ^ 16.
abbrev pub advance : Controls → ℕ → ℕ
advance c offset =
    (if c.increment then 1 else 0)
    + (if c.add_signed_offset then (if ltb offset 128 then offset else 65536 - 256 + offset) else 0)

-- A tick of the program counter: a reset wins over all; otherwise the increment and the offset, read
-- as a signed byte, are both added modulo 2 ^ 16. The offset register keeps its value.
pub tick_process-advance :
    (c : Controls) (pc : ProgramCounter)
    → IsWord pc.value
    → IsByte pc.signed_offset
    → ((tick_process c pc).value
        ≡ (if c.reset then 0 else (pc.value + advance c pc.signed_offset) % 65536))
      × ((tick_process c pc).signed_offset ≡ pc.signed_offset)
unfolding tick_process Word.add
tick_process-advance c pc hv ho = (
  ground (
    arith,
    and_0xffff
        (offset_sum (if c.increment then Word.add pc.value 1 else pc.value) pc.signed_offset),
  ),
  ground arith,
)

-- A counter's increment and decrement undo one another over bytes, a reset wins over both, and the
-- increment over the decrement.
pub tick_counter-modular :
    (value : ℕ) (r i d : Bool)
    → IsByte value
    → (tick_counter false false true (tick_counter false true false value) ≡ value)
      × (tick_counter false true false (tick_counter false false true value) ≡ value)
      × (tick_counter r i d value ≡ (
          if r
          then 0
          else if i
          then (value + 1) % 256
          else if d
          then (value + 255) % 256
          else value))
unfolding tick_counter Byte.add Byte.sub
tick_counter-modular value r i d h = (omega arith, omega arith, ground arith)
