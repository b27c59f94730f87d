-- ===== src/Sim/Disassembler.antt =====
-- The disassembler: sim/src/disassembler.cpp and its header. A stream is the text that is written.
-- The table of instructions and that of the addressing modes are generated, and are parameters.
pub mod Totals
pub mod Listing
use irata.Prelude.{
  Text, codes, ℕ, zero, suc, ◌+◌, ◌-◌, ◌*◌, ◌/◌, ◌%◌, Bool, true, ◌&&◌, ◌||◌, Option, none, some,
  List, [], ◌∷◌, ◌++◌, length, take, drop, null, get_elem?, ltb, leb, ◌==◌, if◌then◌else◌, Result,
  ok, err, ◌>>=◌,
}
use irata.Prelude.Maps.{find_key, add_key}
use irata.Sim.DebugSymbols.{DebugSymbols}
use irata.Assembler.FirstPass.{
  AddressingMode, InstructionInfo, imp, imm, zp, zpx, zpy, abs, abx, aby, ind, izx, izy, rel,
}

-- `std::out_of_range` of `bytes.at`, and the end of the fuel.
pub data DisassemblerError : Type 0 where
  out_of_range out_of_fuel : DisassemblerError

abbrev pub Disassembled : Type 0 → Type 0
Disassembled A = Result DisassemblerError A

pub record DisassembleOptions : Type 0 where
  pub origin : ℕ
  pub emit_org : Bool
  pub emit_labels : Bool
  pub emit_addresses : Bool
  pub emit_bytes : Bool

abbrev pub Labels : Type 0
Labels = List (ℕ × Text)

-- A digit in upper case.
abbrev hex_digit : ℕ → ℕ
hex_digit d = if ltb d 10 then 48 + d else 55 + d

abbrev pub format_hex_byte : ℕ → Text
format_hex_byte value = b'$' ∷ hex_digit (value / 16) ∷ hex_digit (value % 16) ∷ []

abbrev pub format_hex_word : ℕ → Text
format_hex_word value =
    b'$'
    ∷ hex_digit (value / 4096)
    ∷ hex_digit (value / 256 % 16)
    ∷ hex_digit (value / 16 % 16)
    ∷ hex_digit (value % 16)
    ∷ []

-- The loop of `BuildLabelMap`.
unfoldable pub add_labels : List (Text × ℕ) → Labels → Labels
unfolding add_key
add_labels [] labels = labels
add_labels (entry ∷ entries) labels =
    add_labels entries (add_key (λ a b. a == b) entry.1 entry.0 labels)

unfoldable pub build_label_map : Option DebugSymbols → Labels
unfolding add_labels
build_label_map none = []
build_label_map (some symbols) = add_labels symbols.symbols []

abbrev pub label_for : Labels → ℕ → Option Text
label_for labels target = find_key (λ a b. a == b) target labels

abbrev pub label_or_word : Labels → ℕ → Text
label_or_word labels target = elim (label_for labels target) [
  | some label ↦ label
  | none ↦ format_hex_word target
]

-- `bytes.at(i)`
abbrev pub at : List ℕ → ℕ → Disassembled ℕ
at bytes i = elim (get_elem? bytes i) [ some value ↦ ok value | none ↦ err out_of_range ]

abbrev formatted_byte : Text → List ℕ → Text → Disassembled Text
formatted_byte before bytes behind =
    (at bytes 0 >>= λ value. ok (before ++ format_hex_byte value ++ behind))

-- An operand of two bytes, the low byte first.
abbrev formatted_word : Text → List ℕ → Labels → Text → Disassembled Text
formatted_word before bytes labels behind =
    (at bytes 0 >>= λ low.
    at bytes 1 >>= λ high. ok (before ++ label_or_word labels (low + high * 256) ++ behind))

-- The 16 bits of `address + 2 + offset`, with the byte as an `int8_t`.
abbrev pub relative_target : ℕ → ℕ → ℕ
relative_target address offset =
    if ltb offset 128
    then (address + 2 + offset) % 65536
    else (address + 2 + offset + (65536 - 256)) % 65536

unfoldable pub format_operand : AddressingMode → List ℕ → ℕ → Labels → Disassembled Text
format_operand imp bytes address labels = ok []
format_operand imm bytes address labels = formatted_byte (b'#' ∷ []) bytes []
format_operand zp bytes address labels = formatted_byte [] bytes []
format_operand zpx bytes address labels = formatted_byte [] bytes (b',' ∷ b'X' ∷ [])
format_operand zpy bytes address labels = formatted_byte [] bytes (b',' ∷ b'Y' ∷ [])
format_operand izx bytes address labels = formatted_byte (b'(' ∷ []) bytes (b',' ∷ b'X' ∷ b')' ∷ [])
format_operand izy bytes address labels = formatted_byte (b'(' ∷ []) bytes (b')' ∷ b',' ∷ b'Y' ∷ [])
format_operand abs bytes address labels = formatted_word [] bytes labels []
format_operand abx bytes address labels = formatted_word [] bytes labels (b',' ∷ b'X' ∷ [])
format_operand aby bytes address labels = formatted_word [] bytes labels (b',' ∷ b'Y' ∷ [])
format_operand ind bytes address labels = formatted_word (b'(' ∷ []) bytes labels (b')' ∷ [])
format_operand rel bytes address labels =
    (at bytes 0 >>= λ offset. ok (label_or_word labels (relative_target address offset)))

-- The bytes behind a line, each behind a space.
abbrev pub written_bytes : List ℕ → Text
written_bytes [] = []
written_bytes (value ∷ values) = b' ' ∷ (format_hex_byte value ++ written_bytes values)

-- The comment of a line.
abbrev pub comment : DisassembleOptions → ℕ → ℕ → List ℕ → Text
comment options address opcode operands =
    if options.emit_addresses || options.emit_bytes
    then b' '
      ∷ b';'
      ∷ ((if options.emit_addresses then b' ' ∷ format_hex_word address else [])
          ++ (if options.emit_bytes then written_bytes (opcode ∷ operands) else []))
    else []

-- The line of an instruction, without its label.
unfoldable pub instruction_line :
    DisassembleOptions → Labels → InstructionInfo → ℕ → ℕ → List ℕ → Disassembled Text
unfolding format_operand
instruction_line options labels info address opcode operands =
    (format_operand info.addressing_mode operands address labels >>= λ operand. ok (
      info.mnemonic
      ++ (if null operand then [] else b' ' ∷ operand)
      ++ comment options address opcode operands
      ++ b'\n' ∷ []))

abbrev pub byte_line : ℕ → Text
byte_line opcode = codes ".byte " ++ format_hex_byte opcode ++ b'\n' ∷ []

-- The label of an address.
abbrev pub label_line : DisassembleOptions → Labels → ℕ → Text
label_line options labels address = elim (label_for labels address) [
  | some label ↦ if options.emit_labels then label ++ b':' ∷ b'\n' ∷ [] else []
  | none ↦ []
]

module _ (get_instruction : ℕ → Option InstructionInfo)
    (operand_bytes : AddressingMode → Option ℕ) where
  -- `operand_size`
  abbrev pub size_of : AddressingMode → ℕ
  size_of mode = elim (operand_bytes mode) [ some size ↦ size | none ↦ 0 ]

  module _ (options : DisassembleOptions) (labels : Labels) where
    -- A line for an opcode with an entry, and how many bytes it takes.
    unfoldable pub known : InstructionInfo → ℕ → ℕ → List ℕ → Disassembled (Text × ℕ)
    unfolding instruction_line
    known info address opcode rest =
        let size = size_of info.addressing_mode in
        if leb (suc (length rest)) size
        then ok (byte_line opcode, 1)
        else (instruction_line options labels info address opcode (take size rest) >>= λ line.
            ok (line, 1 + size))

    -- A line without its label, and how many bytes it takes.
    unfoldable pub line_at : ℕ → ℕ → List ℕ → Disassembled (Text × ℕ)
    unfolding known
    line_at address opcode rest = elim (get_instruction opcode) [
      | none ↦ ok (byte_line opcode, 1)
      | some info ↦ known info address opcode rest
    ]

    -- The loop, over the rest of the image.
    unfoldable pub disassemble_loop : ℕ → List ℕ → ℕ → Disassembled Text
    unfolding line_at
    disassemble_loop fuel [] address = ok []
    disassemble_loop zero (opcode ∷ rest) address = err out_of_fuel
    disassemble_loop (suc fuel) (opcode ∷ rest) address =
        (line_at address opcode rest >>= λ line.
        disassemble_loop fuel (drop line.1 (opcode ∷ rest)) ((address + line.1) % 65536)
        >>= λ later. ok (label_line options labels address ++ line.0 ++ later))

  unfoldable pub disassemble : List ℕ → Option DebugSymbols → DisassembleOptions → Disassembled Text
  unfolding disassemble_loop build_label_map
  disassemble rom symbols options =
      (disassemble_loop options (build_label_map symbols) (length rom) rom options.origin
        >>= λ lines. ok (
            (if options.emit_org
              then codes ".org " ++ format_hex_word options.origin ++ b'\n' ∷ []
              else [])
            ++ lines))
