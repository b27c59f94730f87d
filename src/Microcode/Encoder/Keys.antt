-- ===== src/Microcode/Encoder/Keys.antt =====
-- The keys of the microcode table.
use irata.Prelude.{ℕ, ◌+◌, ◌*◌, ◌<◌, bit_and, bit_or, ◌≡◌, ap, ap₂, ◌∙◌, arith}
use irata.Bits.{u8, u32, shl, shr, bit_or-shl, and_0xff}
use irata.Microcode.Encoder.{MicrocodeKey, encode_key, decode_key}

module _ (key : MicrocodeKey) (ho : key.opcode < 256) (hp : key.step < 256)
    (hs : key.status < 256) where
  upper_fields :
      bit_or (u32 (shl key.opcode 16)) (u32 (shl key.step 8)) ≡ shl (key.opcode * 256 + key.step) 8
  upper_fields =
      ap₂ bit_or (omega arith) (omega arith)
      ∙ bit_or-shl 16 key.opcode (shl key.step 8) (omega arith)
      ∙ omega arith

  encode_key-value : encode_key key ≡ key.opcode * 65536 + key.step * 256 + key.status
  unfolding encode_key
  encode_key-value =
      ap (λ n. bit_or n key.status) upper_fields
      ∙ bit_or-shl 8 (key.opcode * 256 + key.step) key.status (omega arith)
      ∙ omega arith

  -- A key of three bytes is read back from its encoding.
  pub decode_key-encode_key : decode_key (encode_key key) ≡ key
  unfolding decode_key
  decode_key-encode_key =
      ap₂ (λ o (r : ℕ × ℕ). record { opcode = o; step = r.0; status = r.1 }) opcode
        (ap₂ (λ p s. (p, s)) step status)
    where
      opcode : u8 (bit_and (shr (encode_key key) 16) 0xFF) ≡ key.opcode
      opcode = omega (arith, encode_key-value, and_0xff (shr (encode_key key) 16))

      step : u8 (bit_and (shr (encode_key key) 8) 0xFF) ≡ key.step
      step = omega (arith, encode_key-value, and_0xff (shr (encode_key key) 8))

      status : u8 (bit_and (encode_key key) 0xFF) ≡ key.status
      status = omega (arith, encode_key-value, and_0xff (encode_key key))

-- A number below 2 ^ 24 is encoded again from its key.
pub encode_key-decode_key : (n : ℕ) → n < 16777216 → encode_key (decode_key n) ≡ n
unfolding decode_key
encode_key-decode_key n h = omega (
  arith,
  encode_key-value (decode_key n) (omega arith) (omega arith) (omega arith),
  and_0xff (shr n 16),
  and_0xff (shr n 8),
  and_0xff n,
)
