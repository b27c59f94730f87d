-- ===== src/Microcode/Decoder.antt =====
-- The dumps of a compiled program: microcode/src/debug/decoder.cpp. A stream is the text that is
-- written. The text dumps and the YAML dumps share their loops, with a format for what they write.
pub mod Totals
pub mod Order
use irata.Prelude.{
  Text, codes, ℕ, suc, Bool, true, false, not, ◌||◌, ◌&&◌, Option, none, some, List, [], ◌∷◌, ◌++◌,
  null, bit_and, ltb, ◌==◌, if◌then◌else◌, Result, ok, err, ◌>>=◌,
}
use irata.Prelude.Digits.{write_number}
use irata.Prelude.Maps.{find_key}
use irata.Bits.{shr}
use irata.Microcode.Encoder.{MicrocodeKey, encode_key, decode_key}

-- `std::out_of_range` of `table.at`
pub data DecoderError : Type 0 where
  out_of_range : DecoderError

abbrev pub Dumped : Type 0 → Type 0
Dumped A = Result DecoderError A

abbrev pub Table : Type 0
Table = List (ℕ × ℕ)

pub record MicrocodeProgram : Type 0 where
  pub table : Table
  pub control_paths : List Text
  pub status_bits : List (Text × ℕ)

-- The items whose bit is set in a word.
abbrev pub has_bit : ℕ → ℕ → Bool
has_bit word bit = bit_and (shr word bit) 1 == 1

-- The loop of `DecodeControlWord`, from bit `i` on.
unfoldable pub decode_control_word : ℕ → List Text → ℕ → List Text
decode_control_word i [] word = []
decode_control_word i (path ∷ paths) word =
    let rest = decode_control_word (suc i) paths word in
    if has_bit word i then path ∷ rest else rest

unfoldable pub flags_of : List (Text × ℕ) → ℕ → List Text
flags_of [] status = []
flags_of (b ∷ bits) status =
    let rest = flags_of bits status in if has_bit status b.1 then b.0 ∷ rest else rest

-- The texts with a separator between them.
unfoldable pub joined : Text → List Text → Text
joined separator [] = []
joined separator (t ∷ []) = t
joined separator (t ∷ u ∷ ts) = t ++ separator ++ joined separator (u ∷ ts)

-- `DecodeStatusBits`
unfoldable pub decode_status_bits : MicrocodeProgram → ℕ → Text
unfolding flags_of joined
decode_status_bits program status =
    if status == 0
    then codes "default"
    else joined (b',' ∷ []) (flags_of program.status_bits status)

-- The keys of the table.
unfoldable pub keys_of : Table → List MicrocodeKey
unfolding decode_key
keys_of [] = []
keys_of (entry ∷ entries) = decode_key entry.0 ∷ keys_of entries

-- The keys of one opcode.
unfoldable pub keys_of_opcode : ℕ → Table → List MicrocodeKey
unfolding decode_key
keys_of_opcode opcode [] = []
keys_of_opcode opcode (entry ∷ entries) =
    let rest = keys_of_opcode opcode entries in
    let key = decode_key entry.0 in if key.opcode == opcode then key ∷ rest else rest

-- By status, then step.
abbrev pub status_before : MicrocodeKey → MicrocodeKey → Bool
status_before a b = if not (a.status == b.status) then ltb a.status b.status else ltb a.step b.step

-- By opcode, then status, then step.
abbrev pub opcode_before : MicrocodeKey → MicrocodeKey → Bool
opcode_before a b = if not (a.opcode == b.opcode) then ltb a.opcode b.opcode else status_before a b

module _ (before : MicrocodeKey → MicrocodeKey → Bool) where
  unfoldable pub insert : MicrocodeKey → List MicrocodeKey → List MicrocodeKey
  insert key [] = key ∷ []
  insert key (k ∷ ks) = let rest = insert key ks in if before k key then k ∷ rest else key ∷ k ∷ ks

  -- `std::sort`
  unfoldable pub sort : List MicrocodeKey → List MicrocodeKey
  unfolding insert
  sort [] = []
  sort (k ∷ ks) = insert k (sort ks)

-- What a dump writes for an opcode, with whether another came before it, for a status and for a step.
pub record Format : Type 0 where
  pub opcode_header : Bool → ℕ → Text
  pub status_header : Text → Text
  pub step_lines : ℕ → List Text → Text

abbrev decimal : ℕ → Text
decimal n = write_number 10 n []

unfoldable pub text_step : ℕ → List Text → Text
unfolding joined
text_step step controls =
    codes "    step "
    ++ decimal step
    ++ codes ": ["
    ++ joined (b',' ∷ b' ' ∷ []) controls
    ++ codes "]\n"

abbrev pub text_format : Format
text_format = record {
  opcode_header = λ other opcode.
      (if other then b'\n' ∷ [] else []) ++ codes "opcode " ++ decimal opcode ++ codes ":\n";
  status_header = λ status. codes "  status " ++ status ++ codes ":\n";
  step_lines = text_step;
}

-- The controls of a step, each on a line.
unfoldable pub yaml_controls : Text → List Text → Text
yaml_controls indent [] = []
yaml_controls indent (control ∷ controls) =
    indent ++ codes "    - " ++ control ++ b'\n' ∷ yaml_controls indent controls

unfoldable pub yaml_step : Text → ℕ → List Text → Text
unfolding yaml_controls
yaml_step indent step controls =
    indent
    ++ codes "- stage: "
    ++ decimal step
    ++ b'\n' ∷ []
    ++ indent
    ++ codes "  controls:\n"
    ++ yaml_controls indent controls

abbrev pub yaml_format : Format
yaml_format = record {
  opcode_header = λ other opcode. codes "  " ++ decimal opcode ++ codes ":\n";
  status_header = λ status. codes "    status_" ++ status ++ codes ":\n      steps:\n";
  step_lines = yaml_step (codes "        ");
}

abbrev pub yaml_instruction_format : Format
yaml_instruction_format = record {
  opcode_header = λ other opcode. [];
  status_header = λ status. codes "  status_" ++ status ++ codes ":\n    steps:\n";
  step_lines = yaml_step (codes "      ");
}

module _ (program : MicrocodeProgram) (format : Format) where
  -- The controls of a key.
  unfoldable pub controls_of : MicrocodeKey → Dumped (List Text)
  unfolding encode_key decode_control_word
  controls_of key = elim (find_key (λ a b. a == b) (encode_key key) program.table) [
    | none ↦ err out_of_range
    | some word ↦ ok (decode_control_word 0 program.control_paths word)
  ]

  abbrev pub status_line : ℕ → ℕ → Text
  status_line current status =
      if status == current then [] else format.status_header (decode_status_bits program status)

  -- The loop of `DumpInstruction`, with the status that was written last.
  unfoldable pub dump_statuses : ℕ → List MicrocodeKey → Dumped Text
  unfolding controls_of
  dump_statuses current [] = ok []
  dump_statuses current (key ∷ keys) =
      (controls_of key >>= λ controls. dump_statuses key.status keys >>= λ later.
      ok (status_line current key.status ++ format.step_lines key.step controls ++ later))

  -- The loop of `DumpProgram`, with the opcode and the status that were written last.
  unfoldable pub dump_opcodes : ℕ → ℕ → List MicrocodeKey → Dumped Text
  unfolding controls_of
  dump_opcodes opcode current [] = ok []
  dump_opcodes opcode current (key ∷ keys) =
      let same = key.opcode == opcode in
      (controls_of key >>= λ controls. dump_opcodes key.opcode key.status keys >>= λ later. ok (
        (if same then [] else format.opcode_header (not (opcode == 255)) key.opcode)
        ++ status_line (if same then current else 255) key.status
        ++ format.step_lines key.step controls
        ++ later))

unfoldable pub dump_program : MicrocodeProgram → Dumped Text
unfolding dump_opcodes sort keys_of
dump_program program =
    dump_opcodes program text_format 255 255 (sort opcode_before (keys_of program.table))

unfoldable pub dump_instruction : MicrocodeProgram → ℕ → Dumped Text
unfolding dump_statuses sort keys_of_opcode
dump_instruction program opcode =
    let keys = keys_of_opcode opcode program.table in
    if null keys
    then ok (codes "opcode " ++ decimal opcode ++ codes ": (no microcode)\n")
    else (dump_statuses program text_format 255 (sort status_before keys) >>= λ lines.
        ok (codes "opcode " ++ decimal opcode ++ codes ":\n" ++ lines))

unfoldable pub dump_program_yaml : MicrocodeProgram → Dumped Text
unfolding dump_opcodes sort keys_of
dump_program_yaml program =
    let keys = keys_of program.table in
    if null keys
    then ok (codes "opcodes: {}\n")
    else (dump_opcodes program yaml_format 255 255 (sort opcode_before keys) >>= λ lines.
        ok (codes "opcodes:\n" ++ lines))

unfoldable pub dump_instruction_yaml : MicrocodeProgram → ℕ → Dumped Text
unfolding dump_statuses sort keys_of_opcode
dump_instruction_yaml program opcode =
    let keys = keys_of_opcode opcode program.table in
    if null keys
    then ok (codes "opcode_" ++ decimal opcode ++ codes ": null\n")
    else (dump_statuses program yaml_instruction_format 255 (sort status_before keys) >>= λ lines.
        ok (codes "opcode_" ++ decimal opcode ++ codes ":\n" ++ lines))
