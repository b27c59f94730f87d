-- ===== src/Assembler.antt =====
-- The assembler's operands: assembler/include/irata2/assembler/ast.h and the resolution of an
-- operand in assembler/src/assembler.cpp. A span only says where an error or a debug record
-- comes from and is left out.
pub mod Lexer
pub mod Parser
pub mod FirstPass
pub mod Encode
pub mod Branch
pub mod Include
pub mod DebugJson
use irata.Prelude.{
  Text, find_name, ℕ, ◌+◌, ◌-◌, Bool, true, false, Option, none, some, List, [], ◌∷◌, ltb,
  if◌then◌else◌, Result, ok, err, ◌>>=◌, ◌>>◌, throw_if,
}
use irata.Bits.{u8, u16}

pub data AssemblerError : Type 0 where
  unexpected_operand_count immediate_branch unsupported_addressing_mode : AssemblerError
  unknown_addressing_mode address_overflow duplicate_label duplicate_constant : AssemblerError
  constant_is_label org_operand_count org_not_number origin_out_of_range : AssemblerError
  origin_below_entry byte_without_operand byte_out_of_range word_out_of_range : AssemblerError
  unknown_name branch_out_of_range program_too_large address_below_entry : AssemblerError
  address_exceeds_rom missing_operand unsupported_operand_width : AssemblerError
  circular_include : AssemblerError

pub data IndexRegister : Type 0 where
  no_index index_x index_y : IndexRegister

-- `Operand`: its kind with the field that the kind reads.
pub data OperandValue : Type 0 where
  number : ℕ → OperandValue
  label : Text → OperandValue

pub record Operand : Type 0 where
  pub value : OperandValue
  pub immediate : Bool
  pub indirect : Bool
  pub index_register : IndexRegister

pub data DirectiveType : Type 0 where
  org byte include : DirectiveType

pub data Statement : Type 0 where
  label_decl : Text → Statement
  equ_decl : Text → ℕ → Statement
  instruction_stmt : Text → List Operand → Statement
  directive_stmt : DirectiveType → List Operand → Text → Statement

-- `symbols` and `constants` of `FirstPassResult`.
pub record Names : Type 0 where
  pub symbols : List (Text × ℕ)
  pub constants : List (Text × ℕ)

-- A number or a constant up to a limit, and otherwise a label, each function with its own test of
-- the label's address.
unfoldable pub resolve_operand :
    ℕ → AssemblerError → (ℕ → Result AssemblerError ℕ) → Names → Operand → Result AssemblerError ℕ
resolve_operand limit out_of_range label_value names operand = elim operand.value [
  | number n ↦ throw_if (ltb limit n) out_of_range >> ok n
  | label name ↦ elim (find_name name names.constants) [
    | some value ↦ throw_if (ltb limit value) out_of_range >> ok value
    | none ↦ elim (find_name name names.symbols) [
      | none ↦ err unknown_name
      | some address ↦ label_value address
    ]
  ]
]

unfoldable pub resolve_byte_operand : Names → Operand → Result AssemblerError ℕ
unfolding resolve_operand
resolve_byte_operand =
    resolve_operand 0xFF byte_out_of_range
      (λ address. throw_if (ltb 0xFF address) byte_out_of_range >> ok address)

unfoldable pub resolve_word_operand : Names → Operand → Result AssemblerError ℕ
unfolding resolve_operand
resolve_word_operand = resolve_operand 0xFFFF word_out_of_range ok

unfoldable pub resolve_target : Names → Operand → Result AssemblerError ℕ
unfolding resolve_operand
resolve_target = resolve_operand 0xFFFF branch_out_of_range ok

-- `int32_t offset = target - base`, tested against -128 and 127 before it is cut to a byte.
unfoldable pub branch_offset : ℕ → ℕ → Result AssemblerError ℕ
branch_offset base target =
    if ltb target base
    then throw_if (ltb 128 (base - target)) branch_out_of_range >> ok (u8 (256 - (base - target)))
    else throw_if (ltb 127 (target - base)) branch_out_of_range >> ok (u8 (target - base))

unfoldable pub resolve_relative_operand : Names → Operand → ℕ → Result AssemblerError ℕ
unfolding resolve_target branch_offset
resolve_relative_operand names operand instruction_address =
    (resolve_target names operand >>= λ target. branch_offset (instruction_address + 2) target)
