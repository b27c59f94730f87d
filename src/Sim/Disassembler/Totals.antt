-- ===== src/Sim/Disassembler/Totals.antt =====
-- The disassembler of sim/src/disassembler.cpp comes to its end on every image.
use irata.Prelude.{
  Text, ℕ, zero, suc, ◌+◌, ◌%◌, ◌≤◌, ◌<◌, ◌≡◌, refl, ap, Option, List, [], ◌∷◌, length, take, drop,
  Bool-cases, Option-cases, inl, inr, ok, err, ◌>>=◌, leb, arith,
}
use irata.Sim.DebugSymbols.{DebugSymbols}
use irata.Sim.Disassembler.{
  Disassembled, DisassembleOptions, Labels, at, format_operand, instruction_line, known, line_at,
  disassemble_loop, disassemble, build_label_map, size_of, byte_line,
}
use irata.Assembler.FirstPass.{
  AddressingMode, InstructionInfo, imp, imm, zp, zpx, zpy, abs, abx, aby, ind, izx, izy, rel,
}

-- The bytes that the operand of a mode stands in.
abbrev pub operand_width : AddressingMode → ℕ
operand_width imp = 0
operand_width abs = 2
operand_width abx = 2
operand_width aby = 2
operand_width ind = 2
operand_width mode = 1

-- A result that is no error.
abbrev pub Made : {A : Type 0} → Disassembled A → Type 0
Made {A} result = (value : A) × (result ≡ ok value)

at-Made : (bytes : List ℕ) (i : ℕ) → i < length bytes → Made (at bytes i)
at-Made [] i h = absurd (omega arith)
at-Made (b ∷ bytes) zero h = (b, refl)
at-Made (b ∷ bytes) (suc i) h = at-Made bytes i (omega arith)

from_ok :
    {A B : Type 0} (call : Disassembled A) (following : A → Disassembled B) {value : A}
    → call ≡ ok value
    → Made (following value)
    → Made (call >>= following)
from_ok call following e h = rw e h

-- A call that is no error, and the rest behind it.
pub >>=-Made :
    {A B : Type 0} (call : Disassembled A) (following : A → Disassembled B)
    → Made call
    → ((value : A) → Made (following value))
    → Made (call >>= following)
>>=-Made (err thrown) following (value, e) h = cc
>>=-Made (ok value) following m h = h value

-- A text made of one byte.
one_byte :
    (bytes : List ℕ) (f : ℕ → Text) → 1 ≤ length bytes → Made (at bytes 0 >>= λ value. ok (f value))
one_byte bytes f h =
    >>=-Made (at bytes 0) _ (at-Made bytes 0 (omega arith)) (λ value. (f value, refl))

-- A text made of two bytes.
two_bytes :
    (bytes : List ℕ) (f : ℕ → ℕ → Text)
    → 2 ≤ length bytes
    → Made (at bytes 0 >>= λ low. at bytes 1 >>= λ high. ok (f low high))
two_bytes bytes f h =
    >>=-Made (at bytes 0) _ (at-Made bytes 0 (omega arith))
      (λ low. >>=-Made (at bytes 1) _ (at-Made bytes 1 (omega arith)) (λ high. (f low high, refl)))

pub format_operand-Made :
    (mode : AddressingMode) (bytes : List ℕ) (address : ℕ) (labels : Labels)
    → operand_width mode ≤ length bytes
    → Made (format_operand mode bytes address labels)
unfolding format_operand
format_operand-Made imp bytes address labels h = ([], refl)
format_operand-Made imm bytes address labels h = one_byte bytes _ h
format_operand-Made zp bytes address labels h = one_byte bytes _ h
format_operand-Made zpx bytes address labels h = one_byte bytes _ h
format_operand-Made zpy bytes address labels h = one_byte bytes _ h
format_operand-Made izx bytes address labels h = one_byte bytes _ h
format_operand-Made izy bytes address labels h = one_byte bytes _ h
format_operand-Made rel bytes address labels h = one_byte bytes _ h
format_operand-Made abs bytes address labels h = two_bytes bytes _ h
format_operand-Made abx bytes address labels h = two_bytes bytes _ h
format_operand-Made aby bytes address labels h = two_bytes bytes _ h
format_operand-Made ind bytes address labels h = two_bytes bytes _ h

pub instruction_line-Made :
    (options : DisassembleOptions) (labels : Labels) (info : InstructionInfo) (address opcode : ℕ)
    (bytes : List ℕ)
    → operand_width info.addressing_mode ≤ length bytes
    → Made (instruction_line options labels info address opcode bytes)
unfolding instruction_line
instruction_line-Made options labels info address opcode bytes h =
    >>=-Made _ _ (format_operand-Made info.addressing_mode bytes address labels h)
      (λ operand. (_, refl))

length-take : (n : ℕ) (xs : List ℕ) → n ≤ length xs → length (take n xs) ≡ n
length-take zero xs h = refl
length-take (suc n) [] h = absurd (omega arith)
length-take (suc n) (x ∷ xs) h = ap suc (length-take n xs (omega arith))

length-drop : (n : ℕ) (xs : List ℕ) → length (drop n xs) ≤ length xs
length-drop zero xs = omega arith
length-drop (suc n) [] = omega arith
length-drop (suc n) (x ∷ xs) = omega (arith, length-drop n xs)

length-drop_some : (n x : ℕ) (xs : List ℕ) → 1 ≤ n → length (drop n (x ∷ xs)) ≤ length xs
length-drop_some zero x xs h = absurd (omega arith)
length-drop_some (suc n) x xs h = length-drop n xs

module _ (get_instruction : ℕ → Option InstructionInfo) (operand_bytes : AddressingMode → Option ℕ)
    (wide : (mode : AddressingMode)
      → operand_width mode ≤ size_of get_instruction operand_bytes mode) where
  module _ (options : DisassembleOptions) (labels : Labels) where
    known-Made :
        (info : InstructionInfo) (address opcode : ℕ) (rest : List ℕ)
        → (line : Text × ℕ) × (known get_instruction operand_bytes options labels info address
              opcode rest
            ≡ ok line)
          × (1 ≤ line.1)
    unfolding known
    known-Made info address opcode rest =
        let size = size_of get_instruction operand_bytes info.addressing_mode in
        elim (Bool-cases (leb (suc (length rest)) size)) [
          | inl short ↦ ((byte_line opcode, 1), rw (known, short) refl, omega arith)
          | inr long ↦
              let enough : length (take size rest) ≡ size =
                length-take size rest (ground (arith, long)) in
              let (line, e) =
                instruction_line-Made options labels info address opcode (take size rest)
                  (omega (arith, wide info.addressing_mode, enough)) in
              ((line, 1 + size), rw (known, long, e) refl, omega arith)
        ]

    line_at-Made :
        (address opcode : ℕ) (rest : List ℕ)
        → (line : Text × ℕ) × (line_at get_instruction operand_bytes options labels address opcode
              rest
            ≡ ok line)
          × (1 ≤ line.1)
    unfolding line_at
    line_at-Made address opcode rest = elim (Option-cases (get_instruction opcode)) [
      | inl unknown ↦ ((byte_line opcode, 1), rw (line_at, unknown) refl, omega arith)
      | inr (info, found) ↦
          let (line, made, some_byte) = known-Made info address opcode rest in
          (line, rw (line_at, found) made, some_byte)
    ]

    disassemble_loop-Made :
        (fuel : ℕ) (rest : List ℕ) (address : ℕ)
        → length rest ≤ fuel
        → Made (disassemble_loop get_instruction operand_bytes options labels fuel rest address)
    unfolding disassemble_loop
    disassemble_loop-Made fuel [] address h = ([], refl)
    disassemble_loop-Made zero (opcode ∷ rest) address h = absurd (omega arith)
    disassemble_loop-Made (suc fuel) (opcode ∷ rest) address h =
        let (line, e, some_byte) = line_at-Made address opcode rest in
        from_ok _ _ e (
          >>=-Made _ _
            (disassemble_loop-Made fuel (drop line.1 (opcode ∷ rest)) ((address + line.1) % 65536)
              (omega (arith, length-drop_some line.1 opcode rest some_byte, h)))
            (λ later. (_, refl)))

  -- Every image is disassembled: when the table gives each mode at least the operand bytes that it is
  -- written from, no byte is missing and the loop comes to the end of the image.
  pub disassemble-Made :
      (rom : List ℕ) (symbols : Option DebugSymbols) (options : DisassembleOptions)
      → Made (disassemble get_instruction operand_bytes rom symbols options)
  unfolding disassemble
  disassemble-Made rom symbols options =
      >>=-Made _ _
        (disassemble_loop-Made options (build_label_map symbols) (length rom) rom options.origin
          (omega arith))
        (λ lines. (_, refl))
