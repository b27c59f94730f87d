-- ===== src/Assembler/Encode.antt =====
-- The second pass of assembler/src/assembler.cpp: the bytes of the items. The debug records that
-- the loop collects are not modelled: they hold spans and the source text of an item.
pub mod Cartridge
use irata.Prelude.{
  ℕ, zero, suc, ◌+◌, ◌-◌, bit_and, Bool, true, false, not, List, [], ◌∷◌, length, set, replicate,
  ◌==◌, ltb, leb, if◌then◌else◌, Result, ok, err, ◌>>=◌, ◌>>◌, throw_if,
}
use irata.Bits.{u8, shr}
use irata.Assembler.{
  AssemblerError, program_too_large, address_below_entry, address_exceeds_rom, missing_operand,
  unsupported_operand_width, Operand, Names, resolve_byte_operand, resolve_word_operand,
  resolve_relative_operand,
}
use irata.Assembler.FirstPass.{AddressingMode, rel, Emittable, instruction, bytes, FirstPassResult}

pub record AssemblerOptions : Type 0 where
  pub origin : ℕ
  pub rom_size : ℕ

-- The byte of a one-byte operand.
unfoldable pub operand_byte : Names → AddressingMode → Operand → ℕ → Result AssemblerError ℕ
unfolding resolve_relative_operand resolve_byte_operand
operand_byte names rel operand address = resolve_relative_operand names operand address
operand_byte names mode operand address = resolve_byte_operand names operand

unfoldable pub write_byte_operand :
    Names → AddressingMode → List Operand → ℕ → ℕ → List ℕ → Result AssemblerError (List ℕ)
unfolding operand_byte
write_byte_operand names mode [] address offset rom = err missing_operand
write_byte_operand names mode (o ∷ os) address offset rom =
    (operand_byte names mode o address >>= λ value.
    throw_if (leb (length rom) (offset + 1)) address_exceeds_rom >> ok (set rom (offset + 1) value))

unfoldable pub write_word_operand :
    Names → List Operand → ℕ → List ℕ → Result AssemblerError (List ℕ)
unfolding resolve_word_operand
write_word_operand names [] offset rom = err missing_operand
write_word_operand names (o ∷ os) offset rom =
    (resolve_word_operand names o >>= λ value.
    throw_if (leb (length rom) (offset + 2)) address_exceeds_rom
    >> ok (
        set (set rom (offset + 1) (u8 (bit_and value 0xFF))) (offset + 2)
          (u8 (bit_and (shr value 8) 0xFF))))

-- The operand's bytes behind the opcode at `offset`.
unfoldable pub write_operand :
    Names → AddressingMode → ℕ → List Operand → ℕ → ℕ → List ℕ → Result AssemblerError (List ℕ)
unfolding write_byte_operand write_word_operand
write_operand names mode operand_bytes operands address offset rom =
    if operand_bytes == 1
    then write_byte_operand names mode operands address offset rom
    else if operand_bytes == 2
    then write_word_operand names operands offset rom
    else throw_if (not (operand_bytes == 0)) unsupported_operand_width >> ok rom

-- The loop over the operands of `.byte`.
unfoldable pub write_bytes : Names → List Operand → ℕ → List ℕ → Result AssemblerError (List ℕ)
unfolding resolve_byte_operand
write_bytes names [] target rom = ok rom
write_bytes names (o ∷ os) target rom =
    throw_if (leb (length rom) target) address_exceeds_rom
    >> (resolve_byte_operand names o >>= λ value.
        write_bytes names os (suc target) (set rom target value))

-- The body of the loop over the items.
unfoldable pub write_item : Names → ℕ → Emittable → List ℕ → Result AssemblerError (List ℕ)
unfolding write_operand write_bytes
write_item names origin item rom =
    throw_if (ltb item.address origin) address_below_entry
    >> (throw_if (leb (length rom) (item.address - origin)) address_exceeds_rom >> elim item.kind [
      | instruction opcode mode operand_bytes ↦
          write_operand names mode operand_bytes item.operands item.address (item.address - origin)
            (set rom (item.address - origin) opcode)
      | bytes ↦ write_bytes names item.operands (item.address - origin) rom
    ])

unfoldable pub write_items : Names → ℕ → List Emittable → List ℕ → Result AssemblerError (List ℕ)
unfolding write_item
write_items names origin [] rom = ok rom
write_items names origin (item ∷ rest) rom =
    (write_item names origin item rom >>= λ next. write_items names origin rest next)

-- `Encode`, as far as the ROM image.
unfoldable pub encode : FirstPassResult → AssemblerOptions → Result AssemblerError (List ℕ)
unfolding write_items
encode pass options =
    let max_address =
      if ltb pass.max_address options.origin then options.origin else pass.max_address in
    throw_if (ltb options.rom_size (max_address - options.origin)) program_too_large
    >> write_items pass.names options.origin pass.items (replicate options.rom_size 0xFF)
