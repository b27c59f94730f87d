-- ===== src/Microcode/Encoder.antt =====
-- The encoders: microcode/src/encoder and microcode/include/irata2/microcode/output/program.h.
pub mod Keys
use irata.Prelude.{
  Text, same_text, find_name, ℕ, zero, suc, ◌+◌, ◌^◌, bit_and, bit_or, Bool, true, false, not,
  Option, none, some, List, [], ◌∷◌, ◌++◌, length, null, ◌==◌, leb, if◌then◌else◌, Result, ok, err,
  ◌>>=◌, ◌>>◌, throw_if,
}
use irata.Bits.{u8, u32, shl, shr}
use irata.Microcode.Ir.{
  MicrocodeError, each, control_not_registered, too_many_controls, status_bit_out_of_range,
  status_not_configured, unknown_status,
}

pub record MicrocodeKey : Type 0 where
  pub opcode : ℕ
  pub step : ℕ
  pub status : ℕ

unfoldable pub encode_key : MicrocodeKey → ℕ
encode_key key = bit_or (bit_or (u32 (shl key.opcode 16)) (u32 (shl key.step 8))) key.status

-- `InstructionEncoder::MakeKey`
unfoldable pub make_key : ℕ → ℕ → ℕ → MicrocodeKey
make_key opcode step status = record { opcode = u8 opcode; step = step; status = status }

unfoldable pub decode_key : ℕ → MicrocodeKey
decode_key encoded = record {
  opcode = u8 (bit_and (shr encoded 16) 0xFF);
  step = u8 (bit_and (shr encoded 8) 0xFF);
  status = u8 (bit_and encoded 0xFF);
}

-- The controls in the order of the visitor; `control_index_` is a control's position.
unfoldable pub control_index : List ℕ → ℕ → Option ℕ
control_index [] info = none
control_index (c ∷ cs) info =
    if c == info
    then some 0
    else elim (control_index cs info) [ some i ↦ some (suc i) | none ↦ none ]

-- The constructor's check.
unfoldable pub new_control_encoder : List ℕ → Result MicrocodeError (List ℕ)
new_control_encoder registered =
    throw_if (not (leb (length registered) 128)) too_many_controls >> ok registered

-- The loop of `ControlEncoder::Encode`, with the word so far.
unfoldable pub encode_from : List ℕ → ℕ → List ℕ → Result MicrocodeError ℕ
unfolding control_index
encode_from registered word [] = ok word
encode_from registered word (info ∷ rest) = elim (control_index registered info) [
  | none ↦ err control_not_registered
  | some i ↦ encode_from registered (bit_or word (shl 1 i)) rest
]

unfoldable pub encode_controls : List ℕ → List ℕ → Result MicrocodeError ℕ
unfolding encode_from
encode_controls registered = encode_from registered 0

-- `ControlEncoder::Decode` from bit `i` on: the registered items whose bit is set.
unfoldable pub decode_from : ℕ → List ℕ → ℕ → List ℕ
decode_from i [] word = []
decode_from i (c ∷ cs) word =
    if bit_and (shr word i) 1 == 1
    then c ∷ decode_from (suc i) cs word
    else decode_from (suc i) cs word

-- The status bits: names with their positions.
abbrev pub StatusBits : Type 0
StatusBits = List (Text × ℕ)

unfoldable pub new_status_encoder : StatusBits → Result MicrocodeError StatusBits
unfolding each
new_status_encoder bits = each (λ b. throw_if (leb 8 b.1) status_bit_out_of_range) bits >> ok bits

abbrev pub knows : StatusBits → Text → Bool
knows [] name = false
knows (b ∷ bs) name = if same_text b.0 name then true else knows bs name

-- The first loop of `ExpandPartial`: the required bits and the unspecified ones.
unfoldable pub split_bits : List (Text × Bool) → ℕ → StatusBits → ℕ × List ℕ
split_bits partial base [] = (base, [])
split_bits partial base (b ∷ bs) = elim (find_name b.0 partial) [
  | none ↦ let rest = split_bits partial base bs in (rest.0, b.1 ∷ rest.1)
  | some true ↦ split_bits partial (bit_or base (u8 (shl 1 b.1))) bs
  | some false ↦ split_bits partial base bs
]

-- The inner loop over the unspecified bits, from position `i` on.
unfoldable pub spread_mask : ℕ → ℕ → ℕ → List ℕ → ℕ
spread_mask mask i value [] = value
spread_mask mask i value (b ∷ bs) =
    spread_mask mask (suc i)
      (if bit_and mask (shl 1 i) == 0 then value else bit_or value (u8 (shl 1 b))) bs

-- The outer loop: the values of the masks from `mask` on, `n` of them.
unfoldable pub expand_masks : ℕ → ℕ → ℕ → List ℕ → List ℕ
unfolding spread_mask
expand_masks zero mask base unspecified = []
expand_masks (suc n) mask base unspecified =
    spread_mask mask 0 base unspecified ∷ expand_masks n (suc mask) base unspecified

-- `StatusEncoder::ExpandPartial`
unfoldable pub expand_partial : StatusBits → List (Text × Bool) → Result MicrocodeError (List ℕ)
unfolding split_bits expand_masks each
expand_partial bits partial =
    if null bits
    then throw_if (not (null partial)) status_not_configured >> ok (0 ∷ [])
    else (let found = split_bits partial 0 bits in
        each (λ c. throw_if (not (knows bits c.0)) unknown_status) partial
        >> ok (expand_masks (2 ^ length found.1) 0 found.0 found.1))
