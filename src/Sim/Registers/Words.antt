-- ===== src/Sim/Registers/Words.antt =====
-- The word counter of sim/include/irata2/sim/word_counter.h as two bytes.
use irata.Prelude.{ℕ, ◌+◌, ◌%◌, ◌≡◌, Bool, ◌&&◌, ◌==◌, if◌then◌else◌, arith}
use irata.Base.Byte.{IsByte}
use irata.Base.Word
use irata.Base.Word.{
  IsWord, of_bytes-value, high-value, low-value, high-IsByte, low-IsByte, high-low-of_bytes,
}
use irata.Sim.Registers.{tick_word_counter, set_low, set_high}

-- A tick of the word counter keeps it a word and carries: with an increment and no reset the low byte
-- goes up modulo 2 ^ 8, and the high byte goes up with it just when the low byte was 0xff.
pub tick_word_counter-carry :
    (reset increment : Bool) (w : ℕ)
    → IsWord w
    → IsWord (tick_word_counter reset increment w)
      × (Word.low (tick_word_counter reset increment w)
          ≡ (if reset then 0 else if increment then (Word.low w + 1) % 256 else Word.low w))
      × (Word.high (tick_word_counter reset increment w) ≡ (
          if reset
          then 0
          else if increment && (Word.low w == 255)
          then (Word.high w + 1) % 256
          else Word.high w))
unfolding tick_word_counter Word.add
tick_word_counter-carry reset increment w h =
    let next = tick_word_counter reset increment w in
    let word : IsWord next = ground arith in
    (
      word,
      ground (arith, low-value next, low-value w),
      ground (arith, high-value next word, high-value w h, low-value w),
    )

-- Setting one byte of a word register keeps the other one.
pub set_low-set_high :
    (byte w : ℕ)
    → IsByte byte
    → (Word.low (set_low byte w) ≡ byte)
      × (Word.high (set_low byte w) ≡ Word.high w)
      × (Word.low (set_high byte w) ≡ Word.low w)
      × (Word.high (set_high byte w) ≡ byte)
unfolding set_low set_high
set_low-set_high byte w h =
    let low_set = high-low-of_bytes (Word.high w) byte (high-IsByte w) h in
    let high_set = high-low-of_bytes byte (Word.low w) h (low-IsByte w) in
    (low_set.1, low_set.0, high_set.1, high_set.0)
