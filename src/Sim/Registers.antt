-- ===== src/Sim/Registers.antt =====
-- The other registers of sim/include/irata2/sim: register_base.h, local_register.h, word_register.h,
-- word_counter.h, latched_word_register.h and instruction_register.h, and TickProcess of
-- sim/src/controller/controller.cpp with the order in which the processor ticks the program counter
-- and the controller.
pub mod Injection
pub mod Words
use irata.Prelude.{
  ℕ, ◌+◌, ◌*◌, ◌/◌, ◌%◌, ◌^◌, ◌≡◌, refl, ap, ◌∙◌, Bool, true, false, not, ◌&&◌, ◌||◌, Option, none,
  some, List, [], ◌∷◌, if◌then◌else◌, arith,
}
use irata.Base.Byte.{IsByte}
use irata.Base.Word
use irata.Base.Word.{IsWord}
use irata.Sim.Counter
use irata.Sim.Counter.{ProgramCounter, Controls, advance, tick_process-advance}

-- `TickProcess` of `RegisterBase` and of `LocalRegister`, which no bus reaches.
unfoldable pub tick_register : Bool → ℕ → ℕ
tick_register reset value = if reset then 0 else value

-- `WordRegister::set_low` and `set_high`
unfoldable pub set_low : ℕ → ℕ → ℕ
set_low byte value = Word.of_bytes (Word.high value) byte

unfoldable pub set_high : ℕ → ℕ → ℕ
set_high byte value = Word.of_bytes byte (Word.low value)

-- `WordCounter::TickProcess`
unfoldable pub tick_word_counter : Bool → Bool → ℕ → ℕ
unfolding tick_register
tick_word_counter reset increment value =
    let kept = tick_register reset value in if increment && not reset then Word.add kept 1 else kept

-- `LatchedWordRegister::TickProcess`
unfoldable pub tick_latched : Bool → ℕ → ℕ → ℕ
tick_latched latch source value = if latch then source else value

-- `Controller::TickProcess`, behind its children: the instruction pointer.
unfoldable pub tick_controller : Bool → ℕ → ℕ → ℕ
tick_controller instruction_start pc ipc = if instruction_start then pc else ipc

-- `ProgramCounter::BytePort::TickProcess`
unfoldable pub tick_byte_port : Bool → Bool → ProgramCounter → ProgramCounter
unfolding Counter.set_byte
tick_byte_port is_high reset pc = if reset then Counter.set_byte is_high 0 pc else pc

-- The process controls of the program counter's children: its two byte ports and its offset register.
pub record PortResets : Type 0 where
  pub low : Bool
  pub high : Bool
  pub signed_offset : Bool

-- The program counter with its byte ports and its offset register, in the order in which the
-- processor registers them.
unfoldable pub tick_program_counter : Controls → PortResets → ProgramCounter → ProgramCounter
unfolding Counter.tick_process tick_byte_port tick_register
tick_program_counter controls resets pc =
    let ticked = Counter.tick_process controls pc in
    let ported = tick_byte_port true resets.high (tick_byte_port false resets.low ticked) in
    record ported { signed_offset = tick_register resets.signed_offset ported.signed_offset }

-- The part of the processor's children, in the order of their registration, that the instruction
-- pointer hangs on: the program counter with its children, the controller and the instruction pointer
-- itself.
unfoldable pub tick_pointers :
    Controls → PortResets → Bool → Bool → ProgramCounter → ℕ → ProgramCounter × ℕ
unfolding tick_program_counter tick_controller tick_latched
tick_pointers controls resets instruction_start latch pc ipc =
    let ticked = tick_program_counter controls resets pc in
    (ticked, tick_latched latch ticked.value (tick_controller instruction_start ticked.value ipc))

-- `InstructionRegister`
pub record InstructionRegister : Type 0 where
  pub byte : ℕ
  pub inject_interrupt : Bool

abbrev pub irq_opcode : ℕ
irq_opcode = 0x00

-- `InstructionRegister::value`
unfoldable pub value : InstructionRegister → ℕ
value ir = if ir.inject_interrupt then irq_opcode else ir.byte

-- What a tick brings to the instruction register: its reset control, what `TickProcess` asks, and the
-- byte that the read phase takes from the bus, if any.
pub record InstructionTick : Type 0 where
  pub read : Option ℕ
  pub reset : Bool
  pub irq_line : Bool
  pub instruction_start : Bool
  pub interrupt_disable : Bool

-- `InstructionRegister::TickProcess`
unfoldable pub tick_instruction : InstructionTick → InstructionRegister → InstructionRegister
unfolding tick_register
tick_instruction t ir =
    let kept = record ir { byte = tick_register t.reset ir.byte } in
    if t.reset
    then record kept { inject_interrupt = false }
    else if t.instruction_start
    then record kept { inject_interrupt = t.irq_line && not t.interrupt_disable }
    else kept

-- The read phase of a tick, as `RegisterWithBus::write_value` keeps the byte.
abbrev pub read_instruction : InstructionTick → InstructionRegister → InstructionRegister
read_instruction t ir = elim t.read [ none ↦ ir | some byte ↦ record ir { byte = byte } ]

-- The ticks of a run, each with its read phase before its process phase.
unfoldable pub run_instruction : List InstructionTick → InstructionRegister → InstructionRegister
unfolding tick_instruction
run_instruction [] ir = ir
run_instruction (t ∷ ts) ir = run_instruction ts (tick_instruction t (read_instruction t ir))

-- A word with the bytes that are reset.
abbrev pub with_resets : PortResets → ℕ → ℕ
with_resets resets w =
    (if resets.high then 0 else w / 256) * 256 + (if resets.low then 0 else w % 256)

tick_byte_port-value :
    (low high : Bool) (pc : ProgramCounter)
    → IsWord pc.value
    → (tick_byte_port true high (tick_byte_port false low pc)).value
      ≡ (if high then 0 else pc.value / 256) * 256 + (if low then 0 else pc.value % 256)
unfolding tick_byte_port Counter.set_byte
tick_byte_port-value false false pc h = omega arith
tick_byte_port-value true false pc h = omega (
  arith,
  Word.of_bytes-value (Word.high pc.value) 0 (Word.high-IsByte pc.value) (omega arith),
  Word.high-value pc.value h,
)
tick_byte_port-value false true pc h = omega (
  arith,
  Word.of_bytes-value 0 (Word.low pc.value) (omega arith) (Word.low-IsByte pc.value),
  Word.low-value pc.value,
)
tick_byte_port-value true true pc h =
    let cleared = Word.of_bytes (Word.high pc.value) 0 in
    omega (
      arith,
      Word.of_bytes-value 0 (Word.low cleared) (omega arith) (Word.low-IsByte cleared),
      Word.low-value cleared,
      Word.of_bytes-value (Word.high pc.value) 0 (Word.high-IsByte pc.value) (omega arith),
    )

tick_program_counter-resets :
    (c : Controls) (resets : PortResets) (pc : ProgramCounter)
    → IsWord pc.value
    → IsByte pc.signed_offset
    → (tick_program_counter c resets pc).value
      ≡ with_resets resets (if c.reset then 0 else (pc.value + advance c pc.signed_offset) % 65536)
unfolding tick_program_counter
tick_program_counter-resets c resets pc hv ho =
    let value = (tick_process-advance c pc hv ho).0 in
    let word : IsWord (Counter.tick_process c pc).value = ground (arith, value) in
    tick_byte_port-value resets.low resets.high (Counter.tick_process c pc) word
    ∙ ap (with_resets resets) value

-- The instruction pointer captures what the program counter is after its own tick and its byte ports':
-- with a start of an instruction or a latch it becomes the program counter with the increment and the
-- offset of that tick added, or zero in a reset, and then with zero in each byte whose port is reset;
-- otherwise it is kept.
pub tick_pointers-advance :
    (c : Controls) (resets : PortResets) (start latch : Bool) (pc : ProgramCounter) (ipc : ℕ)
    → IsWord pc.value
    → IsByte pc.signed_offset
    → (tick_pointers c resets start latch pc ipc).1 ≡ (
        if start || latch
        then with_resets resets
            (if c.reset then 0 else (pc.value + advance c pc.signed_offset) % 65536)
        else ipc)
unfolding tick_pointers tick_latched tick_controller
tick_pointers-advance c resets start latch pc ipc hv ho =
    latched start latch (tick_program_counter-resets c resets pc hv ho)
  where
    latched :
        (s l : Bool) {captured value : ℕ}
        → captured ≡ value
        → tick_latched l captured (tick_controller s captured ipc) ≡ (if s || l then value else ipc)
    latched true true e = e
    latched true false e = e
    latched false true e = e
    latched false false e = refl
