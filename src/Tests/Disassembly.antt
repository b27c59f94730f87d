-- ===== src/Tests/Disassembly.antt =====
-- The disassembler on a small image.
use irata.Prelude.{
  codes, ℕ, ◌≡◌, ◌==◌, refl, true, false, Option, none, some, List, [], ◌∷◌, ok, arith,
  if◌then◌else◌,
}
use irata.Assembler.{Names, Operand, label, no_index, resolve_target, resolve_relative_operand}
use irata.Assembler.FirstPass.{InstructionInfo, AddressingMode, imm, abs, rel}
use irata.Sim.Disassembler.{
  Labels, DisassembleOptions, label_or_word, format_operand, disassemble_loop, disassemble,
}
use irata.Sim.Disassembler.Totals.{operand_width, Made, disassemble-Made}
use irata.Sim.Disassembler.Listing.{
  Instruction, listing, image_of, disassemble_loop-listing, resolve_relative_operand-format_operand,
}

abbrev jmp : InstructionInfo
jmp = record { mnemonic = codes "jmp"; addressing_mode = abs; opcode = 0x4c }

abbrev lda : InstructionInfo
lda = record { mnemonic = codes "lda"; addressing_mode = imm; opcode = 0xa9 }

abbrev get_instruction : ℕ → Option InstructionInfo
get_instruction opcode =
    if opcode == 0x4c then some jmp else if opcode == 0xa9 then some lda else none

abbrev operand_bytes : AddressingMode → Option ℕ
operand_bytes mode = some (operand_width mode)

abbrev options : DisassembleOptions
options = record {
  origin = 0x8000;
  emit_org = true;
  emit_labels = true;
  emit_addresses = true;
  emit_bytes = true;
}

abbrev labels : Labels
labels = (0x8002, codes "loop") ∷ []

abbrev program : List Instruction
program =
    record { opcode = 0xa9; info = lda; operands = 3 ∷ [] }
    ∷ record { opcode = 0x4c; info = jmp; operands = 0x02 ∷ 0x80 ∷ [] }
    ∷ []

printed :
    disassemble_loop get_instruction operand_bytes options labels 5 (image_of program) 0x8000
    ≡ ok (codes "lda #$03 ; $8000 $A9 $03\nloop:\njmp loop ; $8002 $4C $02 $80\n")
unfolding disassemble_loop
printed = refl

cut_off :
    disassemble get_instruction operand_bytes (0x00 ∷ 0xa9 ∷ []) none (record {
      origin = 0x8000;
      emit_org = true;
      emit_labels = true;
      emit_addresses = false;
      emit_bytes = false;
    })
    ≡ ok (codes ".org $8000\n.byte $00\n.byte $A9\n")
unfolding disassemble
cut_off = refl

listing_example :
    disassemble_loop get_instruction operand_bytes options labels 5 (image_of program) 0x8000
    ≡ listing options labels program 0x8000
listing_example =
    disassemble_loop-listing get_instruction operand_bytes options labels program 5 0x8000
      ((refl, refl), ((refl, refl), tt)) (omega arith)

disassemble_example :
    Made (disassemble get_instruction operand_bytes (0x00 ∷ 0xa9 ∷ []) none options)
disassemble_example =
    disassemble-Made get_instruction operand_bytes (λ mode. omega arith) (0x00 ∷ 0xa9 ∷ []) none
      options

abbrev to_loop : Operand
to_loop = record {
  value = label (codes "loop");
  immediate = false;
  indirect = false;
  index_register = no_index;
}

abbrev names : Names
names = record { symbols = (codes "loop", 0x8002) ∷ []; constants = [] }

branch_back : resolve_relative_operand names to_loop 0x8007 ≡ ok 0xf9
unfolding resolve_relative_operand
branch_back = refl

branch_line_example :
    (target : ℕ) × (resolve_target names to_loop ≡ ok target)
    × (format_operand rel (0xf9 ∷ []) 0x8007 labels ≡ ok (label_or_word labels target))
branch_line_example =
    resolve_relative_operand-format_operand names to_loop 0x8007 0xf9 labels (omega arith, tt)
      branch_back
