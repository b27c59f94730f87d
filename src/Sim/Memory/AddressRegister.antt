-- ===== src/Sim/Memory/AddressRegister.antt =====
-- The memory address register: sim/src/memory/memory_address_register.cpp.
use irata.Prelude.{ℕ, ◌+◌, ◌%◌, ◌≡◌, bit_and, Bool, arith, ltb, if◌then◌else◌, ◌∙◌}
use irata.Bits.{u8, u16, and_0xff}
use irata.Base.Byte.{IsByte}
use irata.Base.Word
use irata.Base.Word.{IsWord, of_bytes-value, high-value, low-value}

-- The register's word, and its offset register.
pub record AddressRegister : Type 0 where
  pub value : ℕ
  pub offset : ℕ

-- The process controls of a tick.
pub record Controls : Type 0 where
  pub interrupt_vector : Bool
  pub stack_page : Bool
  pub increment : Bool
  pub add_offset : Bool

unfoldable pub set_low : ℕ → ℕ → ℕ
set_low byte word = Word.of_bytes (Word.high word) byte

unfoldable pub set_high : ℕ → ℕ → ℕ
set_high byte word = Word.of_bytes byte (Word.low word)

-- The branch of `TickProcess` that adds the offset, with the carry from the low byte to the high.
unfoldable pub offset_added : ℕ → ℕ → ℕ
offset_added word offset =
    let sum = u16 (u16 (Word.low word) + u16 offset) in
    let new_low = u8 (bit_and sum 0xff) in
    let carry : ℕ = if ltb 0xff sum then 1 else 0 in
    let new_high = u8 (Word.high word + carry) in Word.of_bytes new_high new_low

-- `MemoryAddressRegister::TickProcess`
unfoldable pub tick_process : Controls → AddressRegister → AddressRegister
tick_process c mar =
    let v1 : ℕ = if c.interrupt_vector then 0xfffe else mar.value in
    let v2 = if c.stack_page then set_high 0x01 v1 else v1 in
    let v3 = if c.increment then Word.add v2 1 else v2 in
    record mar { value = if c.add_offset then offset_added v3 mar.offset else v3 }

-- Indexing is an addition modulo 2 ^ 16: the carry out of the low byte is not lost.
pub offset_added-value : (w o : ℕ) → IsWord w → IsByte o → offset_added w o ≡ (w + o) % 65536
unfolding offset_added
offset_added-value w o hw ho =
    let lo = low-value w in
    let hi = high-value w hw in
    let sum = u16 (u16 (Word.low w) + u16 o) in
    of_bytes-value (u8 (Word.high w + (if ltb 0xff sum then 1 else 0))) (u8 (bit_and sum 0xff))
      (omega arith) (omega arith)
    ∙ ground (arith, and_0xff sum, lo, hi)

set_high-value : (w : ℕ) → set_high 1 w ≡ 256 + w % 256
unfolding set_high
set_high-value w =
    omega
      (arith, low-value w, of_bytes-value 1 (Word.low w) (omega arith) (omega (arith, low-value w)))

-- The controls of a tick act in the order vector, stack page, increment, offset. On a word and a
-- byte offset the stack page keeps the low byte under the high byte 1, and the increment and the
-- offset are added modulo 2 ^ 16.
pub tick_process-index :
    (c : Controls) (mar : AddressRegister)
    → IsWord mar.value
    → IsByte mar.offset
    → let based : ℕ = if c.interrupt_vector then 0xfffe else mar.value in
      let paged = if c.stack_page then 256 + based % 256 else based in
      (tick_process c mar).value
      ≡ (paged + (if c.increment then 1 else 0) + (if c.add_offset then mar.offset else 0)) % 65536
unfolding tick_process Word.add
tick_process-index c mar hw ho =
    let v1 : ℕ = if c.interrupt_vector then 0xfffe else mar.value in
    let v2 : ℕ = if c.stack_page then set_high 0x01 v1 else v1 in
    let v3 : ℕ = if c.increment then Word.add v2 1 else v2 in
    ground (arith, set_high-value v1, offset_added-value v3 mar.offset)
