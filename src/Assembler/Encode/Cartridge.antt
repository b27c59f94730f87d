-- ===== src/Assembler/Encode/Cartridge.antt =====
-- The ROM image that the assembler makes, up to the cartridge that the simulator loads.
use irata.Prelude.{
  ℕ, suc, ◌+◌, ◌-◌, ◌^◌, ◌<◌, ◌≡◌, refl, ◌∙◌, ap, sym, not, ◌==◌, Bool-cases, inl, inr, List, [],
  ◌∷◌, length, length-set, length-replicate, set, replicate, ok, >>=-eq-ok, throw_if-then,
  ok_injective, leb, ltb, arith,
}
use irata.Cartridge.{default_header, write_cartridge, load_cartridge}
use irata.Cartridge.RoundTrip.{load-write}
use irata.Assembler.{
  Operand, Names, address_exceeds_rom, address_below_entry, program_too_large,
  unsupported_operand_width, resolve_byte_operand, resolve_word_operand,
}
use irata.Assembler.FirstPass.{
  AddressingMode, Emittable, instruction, bytes, FirstPassResult, EmittableKind,
}
use irata.Assembler.Encode.{
  AssemblerOptions, operand_byte, write_byte_operand, write_word_operand, write_operand,
  write_bytes, write_item, write_items, encode,
}

write_byte_operand-length :
    (names : Names) (mode : AddressingMode) (operands : List Operand) (address offset : ℕ)
    (rom out : List ℕ)
    → write_byte_operand names mode operands address offset rom ≡ ok out
    → length out ≡ length rom
unfolding write_byte_operand
write_byte_operand-length names mode [] address offset rom out h = cc
write_byte_operand-length names mode (o ∷ os) address offset rom out h =
    let (value, found, stored) = >>=-eq-ok (operand_byte names mode o address) _ h in
    let (fits, made) =
      throw_if-then (leb (length rom) (offset + 1)) address_exceeds_rom
        (ok (set rom (offset + 1) value)) stored in
    ap length (sym (ok_injective made)) ∙ length-set rom (offset + 1) value

write_word_operand-length :
    (names : Names) (operands : List Operand) (offset : ℕ) (rom out : List ℕ)
    → write_word_operand names operands offset rom ≡ ok out
    → length out ≡ length rom
unfolding write_word_operand
write_word_operand-length names [] offset rom out h = cc
write_word_operand-length names (o ∷ os) offset rom out h =
    let (value, found, stored) = >>=-eq-ok (resolve_word_operand names o) _ h in
    let (fits, made) = throw_if-then (leb (length rom) (offset + 2)) address_exceeds_rom _ stored in
    ap length (sym (ok_injective made))
    ∙ length-set _ (offset + 2) _
    ∙ length-set rom (offset + 1) _

write_operand-length :
    (names : Names) (mode : AddressingMode) (size : ℕ) (operands : List Operand)
    (address offset : ℕ) (rom out : List ℕ)
    → write_operand names mode size operands address offset rom ≡ ok out
    → length out ≡ length rom
unfolding write_operand
write_operand-length names mode size operands address offset rom out h =
    elim (Bool-cases (size == 1)) [
      | inl one ↦
          write_byte_operand-length names mode operands address offset rom out
            (rw (one, write_operand) at h)
      | inr not_one ↦ elim (Bool-cases (size == 2)) [
        | inl two ↦
            write_word_operand-length names operands offset rom out
              (rw (not_one, two, write_operand) at h)
        | inr not_two ↦
            let (none_left, made) =
              throw_if-then (not (size == 0)) unsupported_operand_width (ok rom)
                (rw (not_one, not_two, write_operand) at h) in
            ap length (sym (ok_injective made))
      ]
    ]

write_bytes-length :
    (names : Names) (operands : List Operand) (target : ℕ) (rom out : List ℕ)
    → write_bytes names operands target rom ≡ ok out
    → length out ≡ length rom
unfolding write_bytes
write_bytes-length names [] target rom out h = ap length (sym (ok_injective h))
write_bytes-length names (o ∷ os) target rom out h =
    let (fits, checked) = throw_if-then (leb (length rom) target) address_exceeds_rom _ h in
    let (value, found, others) = >>=-eq-ok (resolve_byte_operand names o) _ checked in
    write_bytes-length names os (suc target) (set rom target value) out others
    ∙ length-set rom target value

write_item-length :
    (names : Names) (origin : ℕ) (item : Emittable) (rom out : List ℕ)
    → write_item names origin item rom ≡ ok out
    → length out ≡ length rom
unfolding write_item
write_item-length names origin item rom out h =
    let (high, checked) = throw_if-then (ltb item.address origin) address_below_entry _ h in
    let (fits, written) =
      throw_if-then (leb (length rom) (item.address - origin)) address_exceeds_rom _ checked in
    by_kind item.kind refl written
  where
    offset : ℕ
    offset = item.address - origin

    by_kind :
        (k : EmittableKind)
        → item.kind ≡ k
        → elim k [
          | instruction opcode mode operand_bytes ↦
              write_operand names mode operand_bytes item.operands item.address
                (item.address - origin)
                (set rom (item.address - origin) opcode)
          | bytes ↦ write_bytes names item.operands (item.address - origin) rom
        ]
          ≡ ok out
        → length out ≡ length rom
    by_kind (instruction opcode mode size) e w =
        write_operand-length names mode size item.operands item.address (item.address - origin)
          (set rom (item.address - origin) opcode) out w
        ∙ length-set rom (item.address - origin) opcode
    by_kind bytes e w = write_bytes-length names item.operands (item.address - origin) rom out w

write_items-length :
    (names : Names) (origin : ℕ) (items : List Emittable) (rom out : List ℕ)
    → write_items names origin items rom ≡ ok out
    → length out ≡ length rom
unfolding write_items
write_items-length names origin [] rom out h = ap length (sym (ok_injective h))
write_items-length names origin (item ∷ rest) rom out h =
    let (mid, one, others) = >>=-eq-ok (write_item names origin item rom) _ h in
    write_items-length names origin rest mid out others
    ∙ write_item-length names origin item rom mid one

pub encode-length :
    (pass : FirstPassResult) (options : AssemblerOptions) (rom : List ℕ)
    → encode pass options ≡ ok rom
    → length rom ≡ options.rom_size
unfolding encode
encode-length pass options rom h =
    let (fits, written) = throw_if-then _ program_too_large _ h in
    write_items-length pass.names options.origin pass.items (replicate options.rom_size 0xFF) rom
      written
    ∙ length-replicate options.rom_size 0xFF

-- With an origin that is a word and a ROM size that leaves the header's 32 bytes below 2 ^ 32, the
-- cartridge written for a program that assembles is loaded by the simulator: the entry is the
-- origin, and the ROM is the assembled image, of the configured size.
pub load-encode :
    (pass : FirstPassResult) (options : AssemblerOptions) (rom : List ℕ)
    → options.origin < 65536
    → options.rom_size + 32 < 2 ^ 32
    → encode pass options ≡ ok rom
    → let header = default_header options.origin (length rom) in
      (load_cartridge (write_cartridge header rom) ≡ ok (record { header = header; rom = rom }))
      × (length rom ≡ options.rom_size)
load-encode pass options rom word size h =
    let sized = encode-length pass options rom h in
    (load-write options.origin rom word (omega (arith, sized)), sized)
