-- ===== src/Sim/Disassembler/Listing.antt =====
-- What the disassembler of sim/src/disassembler.cpp makes of a sequence of instructions, and of a
-- branch that the assembler emits.
use irata.Prelude.{
  Text, All, ℕ, zero, suc, ◌+◌, ◌%◌, ◌≤◌, ◌<◌, ◌≡◌, refl, ap, ◌∙◌, Option, some, List, [], ◌∷◌,
  ◌++◌, length, length-append, take, drop, ok, err, ◌>>=◌, >>=-eq-ok, false, leb, arith,
}
use irata.Assembler.{Names, Operand, resolve_target, branch_offset, resolve_relative_operand}
use irata.Assembler.Branch.{resolve_target-word}
use irata.Assembler.FirstPass.{AddressingMode, InstructionInfo, rel}
use irata.Sim.Disassembler.{
  Disassembled, DisassembleOptions, Labels, format_operand, instruction_line, known, line_at,
  disassemble_loop, size_of, label_line, label_or_word, relative_target,
}

-- An opcode with its entry, and the bytes of its operand.
pub record Instruction : Type 0 where
  pub opcode : ℕ
  pub info : InstructionInfo
  pub operands : List ℕ

-- The image of a sequence of instructions.
abbrev pub image_of : List Instruction → List ℕ
image_of [] = []
image_of (i ∷ is) = i.opcode ∷ (i.operands ++ image_of is)

-- The lines of a sequence of instructions, one for each.
abbrev pub listing : DisassembleOptions → Labels → List Instruction → ℕ → Disassembled Text
listing options labels [] address = ok []
listing options labels (i ∷ is) address =
    (instruction_line options labels i.info address i.opcode i.operands >>= λ line.
    listing options labels is ((address + (1 + length i.operands)) % 65536) >>= λ later.
    ok (label_line options labels address ++ line ++ later))

module _ (get_instruction : ℕ → Option InstructionInfo)
    (operand_bytes : AddressingMode → Option ℕ) where
  -- The tables have the instruction, with an operand of its size.
  abbrev pub IsListed : Instruction → Type 0
  IsListed i =
      (get_instruction i.opcode ≡ some i.info)
      × (size_of get_instruction operand_bytes i.info.addressing_mode ≡ length i.operands)

take-append : (xs ys : List ℕ) → take (length xs) (xs ++ ys) ≡ xs
take-append [] ys = refl
take-append (x ∷ xs) ys = ap (λ zs. x ∷ zs) (take-append xs ys)

drop-append : (xs ys : List ℕ) → drop (length xs) (xs ++ ys) ≡ ys
drop-append [] ys = refl
drop-append (x ∷ xs) ys = drop-append xs ys

drop_next : (x : ℕ) (xs ys : List ℕ) → drop (1 + length xs) (x ∷ (xs ++ ys)) ≡ ys
drop_next x xs ys =
    let next : 1 + length xs ≡ suc (length xs) = omega arith in
    ap (λ n. drop n (x ∷ (xs ++ ys))) next ∙ drop-append xs ys

module _ (get_instruction : ℕ → Option InstructionInfo) (operand_bytes : AddressingMode → Option ℕ)
    (options : DisassembleOptions) (labels : Labels) where
  known-eq :
      (i : Instruction) (address : ℕ) (rest : List ℕ)
      → size_of get_instruction operand_bytes i.info.addressing_mode ≡ length i.operands
      → known get_instruction operand_bytes options labels i.info address i.opcode
          (i.operands ++ rest)
        ≡ (instruction_line options labels i.info address i.opcode i.operands >>= λ line.
            ok (line, 1 + length i.operands))
  unfolding known
  known-eq i address rest size =
      let fits : leb (suc (length (i.operands ++ rest))) (length i.operands) ≡ false =
        ground (arith, length-append i.operands rest) in
      rw (known, size, fits, take-append i.operands rest) refl

  line_at-eq :
      (i : Instruction) (address : ℕ) (rest : List ℕ)
      → IsListed get_instruction operand_bytes i
      → line_at get_instruction operand_bytes options labels address i.opcode (i.operands ++ rest)
        ≡ (instruction_line options labels i.info address i.opcode i.operands >>= λ line.
            ok (line, 1 + length i.operands))
  unfolding line_at
  line_at-eq i address rest (found, size) = rw (line_at, found) (known-eq i address rest size)

  bind_assoc :
      {A B C : Type 0} (call : Disassembled A) (f : A → B) (g : B → Disassembled C)
      → ((call >>= λ value. ok (f value)) >>= g) ≡ (call >>= λ value. g (f value))
  bind_assoc (err thrown) f g = refl
  bind_assoc (ok value) f g = refl

  -- The image of a sequence of instructions of the tables is disassembled to their lines, one for
  -- each, on any fuel from the length of the image: the loop stays at the starts of the instructions.
  pub disassemble_loop-listing :
      (is : List Instruction) (fuel address : ℕ)
      → All (IsListed get_instruction operand_bytes) is
      → length (image_of is) ≤ fuel
      → disassemble_loop get_instruction operand_bytes options labels fuel (image_of is) address
        ≡ listing options labels is address
  unfolding disassemble_loop
  disassemble_loop-listing [] fuel address h fits = refl
  disassemble_loop-listing (i ∷ is) zero address h fits = absurd (omega arith)
  disassemble_loop-listing (i ∷ is) (suc fuel) address (listed, others) fits =
      rw (line_at-eq i address (image_of is) listed) (
        bind_assoc (instruction_line options labels i.info address i.opcode i.operands) _ _
        ∙ ap
            (λ (rest : Disassembled Text).
              instruction_line options labels i.info address i.opcode i.operands >>= λ line.
              rest >>= λ later. ok (label_line options labels address ++ line ++ later))
            (ap
                (λ rest.
                  disassemble_loop get_instruction operand_bytes options labels fuel rest
                    ((address + (1 + length i.operands)) % 65536))
                (drop_next i.opcode i.operands (image_of is))
              ∙ disassemble_loop-listing is fuel ((address + (1 + length i.operands)) % 65536)
                  others (omega (arith, length-append i.operands (image_of is), fits))))

relative_target-branch_offset :
    (address target offset : ℕ)
    → target < 65536
    → branch_offset (address + 2) target ≡ ok offset
    → relative_target address offset ≡ target
unfolding branch_offset
relative_target-branch_offset address target offset h e = ground arith

-- A branch that assembles is written with its target: when every symbol is a word, the emitted byte is
-- disassembled to the label of the operand's value, or to that value as a word.
pub resolve_relative_operand-format_operand :
    (names : Names) (operand : Operand) (address offset : ℕ) (labels : Labels)
    → All (λ e. e.1 < 65536) names.symbols
    → resolve_relative_operand names operand address ≡ ok offset
    → (target : ℕ) × (resolve_target names operand ≡ ok target)
      × (format_operand rel (offset ∷ []) address labels ≡ ok (label_or_word labels target))
unfolding resolve_relative_operand format_operand
resolve_relative_operand-format_operand names operand address offset labels words h =
    let (target, resolved, encoded) = >>=-eq-ok _ _ h in
    let same =
      relative_target-branch_offset address target offset
        (resolve_target-word names operand target words resolved) encoded in
    (target, resolved, ap (λ (t : ℕ). ok (label_or_word labels t)) same)
