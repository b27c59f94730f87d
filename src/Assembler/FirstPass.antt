-- ===== src/Assembler/FirstPass.antt =====
-- The first pass of assembler/src/assembler.cpp: the choice of an instruction, the addresses of
-- the emitted items and the names. The table of instructions, which the build generates, and the
-- sizes of the addressing modes are parameters.
pub mod Layout
use irata.Prelude.{
  Text, same_text, find_name, ℕ, ◌+◌, ◌-◌, Bool, true, false, not, ◌&&◌, Option, none, some, List,
  [], ◌∷◌, ◌++◌, length, ltb, leb, if◌then◌else◌, Result, ok, err, ◌>>=◌, ◌>>◌, throw_if,
}
use irata.Bits.{u8, u16}
use irata.Assembler.{
  AssemblerError, unexpected_operand_count, immediate_branch, unsupported_addressing_mode,
  unknown_addressing_mode, address_overflow, duplicate_label, duplicate_constant, constant_is_label,
  org_operand_count, org_not_number, origin_out_of_range, origin_below_entry, byte_without_operand,
  IndexRegister, no_index, index_x, index_y, Operand, number, label, Statement, label_decl,
  equ_decl, instruction_stmt, directive_stmt, org, byte, include, Names,
}

pub data AddressingMode : Type 0 where
  imp imm zp zpx zpy abs abx aby ind izx izy rel : AddressingMode

abbrev pub same_mode : AddressingMode → AddressingMode → Bool
same_mode imp imp = true
same_mode imm imm = true
same_mode zp zp = true
same_mode zpx zpx = true
same_mode zpy zpy = true
same_mode abs abs = true
same_mode abx abx = true
same_mode aby aby = true
same_mode ind ind = true
same_mode izx izx = true
same_mode izy izy = true
same_mode rel rel = true
same_mode _ _ = false

-- What the generated table says of an instruction.
pub record InstructionInfo : Type 0 where
  pub mnemonic : Text
  pub addressing_mode : AddressingMode
  pub opcode : ℕ

-- `std::tolower` of the "C" locale.
abbrev pub to_lower : Text → Text
to_lower [] = []
to_lower (c ∷ cs) = (if leb 65 c && leb c 90 then c + 32 else c) ∷ to_lower cs

unfoldable pub find_instruction :
    List InstructionInfo → Text → AddressingMode → Option InstructionInfo
find_instruction [] mnemonic mode = none
find_instruction (i ∷ is) mnemonic mode =
    if same_text (to_lower i.mnemonic) (to_lower mnemonic) && same_mode i.addressing_mode mode
    then some i
    else find_instruction is mnemonic mode

abbrev pub contains_text : Text → List Text → Bool
contains_text t [] = false
contains_text t (u ∷ us) = if same_text u t then true else contains_text t us

-- "beq", "bne", "bcs", "bcc", "bmi", "bpl", "bvs" and "bvc".
abbrev pub relative_mnemonics : List Text
relative_mnemonics =
    (98 ∷ 101 ∷ 113 ∷ [])
    ∷ (98 ∷ 110 ∷ 101 ∷ [])
    ∷ (98 ∷ 99 ∷ 115 ∷ [])
    ∷ (98 ∷ 99 ∷ 99 ∷ [])
    ∷ (98 ∷ 109 ∷ 105 ∷ [])
    ∷ (98 ∷ 112 ∷ 108 ∷ [])
    ∷ (98 ∷ 118 ∷ 115 ∷ [])
    ∷ (98 ∷ 118 ∷ 99 ∷ [])
    ∷ []

unfoldable pub is_relative_mnemonic : Text → Bool
is_relative_mnemonic mnemonic = contains_text (to_lower mnemonic) relative_mnemonics

abbrev is_page_zero : Operand → Bool
is_page_zero operand = elim operand.value [ number n ↦ leb n 0xFF | label name ↦ false ]

-- The addressing modes that `SelectInstruction` tries, in order.
unfoldable pub operand_modes : Operand → List AddressingMode
operand_modes operand =
    if operand.indirect
    then elim operand.index_register [
      | index_x ↦ izx ∷ []
      | index_y ↦ izy ∷ []
      | no_index ↦ ind ∷ []
    ]
    else if operand.immediate
    then imm ∷ []
    else elim operand.index_register [
      | index_x ↦ if is_page_zero operand then zpx ∷ abx ∷ [] else abx ∷ []
      | index_y ↦ if is_page_zero operand then zpy ∷ aby ∷ [] else aby ∷ []
      | no_index ↦ elim operand.value [
        | number n ↦ if leb n 0xFF then zp ∷ abs ∷ [] else abs ∷ []
        | label name ↦ abs ∷ zp ∷ []
      ]
    ]

unfoldable pub candidates : Text → List Operand → Result AssemblerError (List AddressingMode)
unfolding is_relative_mnemonic operand_modes
candidates mnemonic [] = ok (imp ∷ [])
candidates mnemonic (operand ∷ []) =
    if is_relative_mnemonic mnemonic
    then throw_if operand.immediate immediate_branch >> ok (rel ∷ [])
    else ok (operand_modes operand)
candidates mnemonic _ = err unexpected_operand_count

unfoldable pub first_match :
    List InstructionInfo → Text → List AddressingMode → Result AssemblerError InstructionInfo
unfolding find_instruction
first_match table mnemonic [] = err unsupported_addressing_mode
first_match table mnemonic (mode ∷ rest) = elim (find_instruction table mnemonic mode) [
  | some info ↦ ok info
  | none ↦ first_match table mnemonic rest
]

unfoldable pub select_instruction :
    List InstructionInfo → Text → List Operand → Result AssemblerError InstructionInfo
unfolding candidates first_match
select_instruction table mnemonic operands =
    (candidates mnemonic operands >>= λ modes. first_match table mnemonic modes)

-- `Emittable`: an instruction with its opcode, mode and operand size, or bytes.
pub data EmittableKind : Type 0 where
  instruction : ℕ → AddressingMode → ℕ → EmittableKind
  bytes : EmittableKind

pub record Emittable : Type 0 where
  pub address : ℕ
  pub kind : EmittableKind
  pub operands : List Operand

-- `FirstPassResult` with the cursor of the loop.
pub record FirstPassResult : Type 0 where
  pub items : List Emittable
  pub names : Names
  pub max_address : ℕ
  pub cursor : ℕ

abbrev pub knows_name : Text → List (Text × ℕ) → Bool
knows_name name es = elim (find_name name es) [ some value ↦ true | none ↦ false ]

unfoldable pub validate_cursor : ℕ → Result AssemblerError (Unit {0})
validate_cursor addr = throw_if (ltb 0xFFFF addr) address_overflow

unfoldable pub update_max_address : ℕ → ℕ → ℕ
update_max_address last_addr max_address =
    if leb last_addr 0xFFFF && ltb max_address last_addr then last_addr else max_address

-- An item of `size` bytes at the cursor; both `.byte` and an instruction end so.
unfoldable pub emit :
    EmittableKind → List Operand → ℕ → FirstPassResult → Result AssemblerError FirstPassResult
unfolding validate_cursor update_max_address
emit kind operands size result = do
  validate_cursor result.cursor
  validate_cursor (result.cursor + size - 1)
  ok (record result {
    items =
        result.items
        ++ (record { address = u16 result.cursor; kind = kind; operands = operands } ∷ []);
    max_address = update_max_address (result.cursor + size - 1) result.max_address;
    cursor = result.cursor + size;
  })

module _ (table : List InstructionInfo) (operand_bytes : AddressingMode → Option ℕ)
    (origin : ℕ) where
  unfoldable pub define_label : Text → FirstPassResult → Result AssemblerError FirstPassResult
  unfolding validate_cursor
  define_label name result = do
    throw_if (knows_name name result.names.symbols) duplicate_label
    validate_cursor result.cursor
    ok (record result {
      names = record result.names { symbols = (name, u16 result.cursor) ∷ result.names.symbols };
    })

  unfoldable pub define_constant :
      Text → ℕ → FirstPassResult → Result AssemblerError FirstPassResult
  define_constant name value result = do
    throw_if (knows_name name result.names.constants) duplicate_constant
    throw_if (knows_name name result.names.symbols) constant_is_label
    ok (record result {
      names = record result.names { constants = (name, value) ∷ result.names.constants };
    })

  unfoldable pub move_origin :
      List Operand → FirstPassResult → Result AssemblerError FirstPassResult
  move_origin (operand ∷ []) result = elim operand.value [
    | label name ↦ err org_not_number
    | number value ↦
        throw_if (ltb 0xFFFF value) origin_out_of_range
        >> (throw_if (ltb value origin) origin_below_entry >> ok (record result { cursor = value }))
  ]
  move_origin _ result = err org_operand_count

  unfoldable pub emit_bytes : List Operand → FirstPassResult → Result AssemblerError FirstPassResult
  unfolding emit
  emit_bytes [] result = err byte_without_operand
  emit_bytes (o ∷ os) result = emit bytes (o ∷ os) (length (o ∷ os)) result

  unfoldable pub emit_instruction :
      Text → List Operand → FirstPassResult → Result AssemblerError FirstPassResult
  unfolding select_instruction emit
  emit_instruction mnemonic operands result =
      (select_instruction table mnemonic operands >>= λ info.
      elim (operand_bytes info.addressing_mode) [
        | none ↦ err unknown_addressing_mode
        | some size ↦
            emit (instruction (u8 info.opcode) info.addressing_mode size) operands (1 + size) result
      ])

  -- The body of the loop of `FirstPass`.
  unfoldable pub statement : Statement → FirstPassResult → Result AssemblerError FirstPassResult
  unfolding define_label define_constant move_origin emit_bytes emit_instruction
  statement (label_decl name) = define_label name
  statement (equ_decl name value) = define_constant name value
  statement (directive_stmt org operands path) = move_origin operands
  statement (directive_stmt byte operands path) = emit_bytes operands
  statement (directive_stmt include operands path) = ok
  statement (instruction_stmt mnemonic operands) = emit_instruction mnemonic operands

  unfoldable pub statements :
      List Statement → FirstPassResult → Result AssemblerError FirstPassResult
  unfolding statement
  statements [] result = ok result
  statements (s ∷ rest) result = (statement s result >>= λ next. statements rest next)

  unfoldable pub first_pass : List Statement → Result AssemblerError FirstPassResult
  unfolding statements
  first_pass program = statements program (record {
    items = [];
    names = record { symbols = []; constants = [] };
    max_address = origin;
    cursor = origin;
  })
