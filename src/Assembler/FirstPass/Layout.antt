-- ===== src/Assembler/FirstPass/Layout.antt =====
-- Where the first pass places the items and the labels.
use irata.Prelude.{
  ℕ, suc, ◌+◌, ◌-◌, ◌≤◌, ◌<◌, ◌≡◌, refl, subst, Option, List, [], ◌∷◌, ◌++◌, length, All,
  All-append, ltb, ok, ◌>>◌, throw_if, >>=-eq-ok, throw_if-then, ok_injective, arith, Option-cases,
  inl, inr,
}
use irata.Bits.{u8, u16}
use irata.Assembler.{
  address_overflow, duplicate_label, duplicate_constant, constant_is_label, origin_out_of_range,
  origin_below_entry, Operand, OperandValue, number, label, Statement, label_decl, equ_decl,
  instruction_stmt, directive_stmt, org, byte, include,
}
use irata.Assembler.FirstPass.{
  AddressingMode, InstructionInfo, EmittableKind, instruction, bytes, Emittable, FirstPassResult,
  knows_name, select_instruction, validate_cursor, update_max_address, emit, define_label,
  define_constant, move_origin, emit_bytes, emit_instruction, statement, statements, first_pass,
}

-- The number of bytes that an item takes in the ROM.
abbrev pub item_size : Emittable → ℕ
item_size item = elim item.kind [
  | instruction opcode mode operand_size ↦ 1 + operand_size
  | bytes ↦ length item.operands
]

-- An item lies between the origin and the highest address.
abbrev pub IsPlaced : ℕ → ℕ → Emittable → Type 0
IsPlaced origin max_address item =
    (origin ≤ item.address) × (item.address + item_size item ≤ max_address + 1)

abbrev pub IsLaidOut : ℕ → FirstPassResult → Type 0
IsLaidOut origin r =
    All (IsPlaced origin r.max_address) r.items
    × All (λ e. e.1 < 65536) r.names.symbols
    × (r.max_address < 65536)
    × (origin ≤ r.cursor)

max_address-le : (last m : ℕ) → m ≤ update_max_address last m
unfolding update_max_address
max_address-le last m = ground arith

max_address-covers : (last m : ℕ) → last < 65536 → last ≤ update_max_address last m
unfolding update_max_address
max_address-covers last m h = ground arith

max_address-word : (last m : ℕ) → m < 65536 → update_max_address last m < 65536
unfolding update_max_address
max_address-word last m h = ground arith

IsPlaced-grow :
    (origin m n : ℕ) (items : List Emittable)
    → m ≤ n
    → All (IsPlaced origin m) items
    → All (IsPlaced origin n) items
IsPlaced-grow origin m n [] le h = tt
IsPlaced-grow origin m n (i ∷ is) le h =
    ((h.0.0, omega (arith, h.0.1)), IsPlaced-grow origin m n is le h.1)

emit-IsLaidOut :
    (origin : ℕ) (kind : EmittableKind) (operands : List Operand) (size : ℕ)
    (r next : FirstPassResult)
    → item_size (record { address = 0; kind = kind; operands = operands }) ≡ size
    → 1 ≤ size
    → emit kind operands size r ≡ ok next
    → IsLaidOut origin r
    → IsLaidOut origin next
unfolding emit validate_cursor
emit-IsLaidOut origin kind operands size r next sized some_byte h (items, symbols, top, low) =
    let (starts, checked) = throw_if-then (ltb 0xFFFF r.cursor) address_overflow _ h in
    let (ends, made) =
      throw_if-then (ltb 0xFFFF (r.cursor + size - 1)) address_overflow (ok grown) checked in
    let laid : IsLaidOut origin grown = (
      All-append _ r.items _
          (IsPlaced-grow origin r.max_address _ r.items (max_address-le _ r.max_address) items)
          ((ground arith, omega (arith, sized, placed (ground arith) (ground arith))), tt),
      symbols,
      max_address-word _ r.max_address top,
      omega arith,
    ) in
    subst (IsLaidOut origin) (ok_injective made) laid
  where
    grown : FirstPassResult
    grown = record r {
      items = r.items ++ (record { address = u16 r.cursor; kind = kind; operands = operands } ∷ []);
      max_address = update_max_address (r.cursor + size - 1) r.max_address;
      cursor = r.cursor + size;
    }

    placed :
        r.cursor < 65536
        → r.cursor + size - 1 < 65536
        → u16 r.cursor + size ≤ update_max_address (r.cursor + size - 1) r.max_address + 1
    placed a b = omega (arith, max_address-covers (r.cursor + size - 1) r.max_address (omega arith))

module _ (table : List InstructionInfo) (operand_bytes : AddressingMode → Option ℕ)
    (origin : ℕ) where
  moved :
      (o : Operand) (r next : FirstPassResult)
      → move_origin table operand_bytes origin (o ∷ []) r ≡ ok next
      → IsLaidOut origin r
      → IsLaidOut origin next
  unfolding move_origin
  moved o r next h (items, symbols, top, low) = by_value o.value refl
    where
      by_value : (v : OperandValue) → o.value ≡ v → IsLaidOut origin next
      by_value (label name) e = cc
      by_value (number value) e =
          let checked : (throw_if (ltb 0xFFFF value) origin_out_of_range
                >> (throw_if (ltb value origin) origin_below_entry
                    >> ok (record r { cursor = value })))
              ≡ ok next =
            rw (e, move_origin) at h in
          let (fits, above) = throw_if-then (ltb 0xFFFF value) origin_out_of_range _ checked in
          let (high, made) =
            throw_if-then (ltb value origin) origin_below_entry (ok (record r { cursor = value }))
              above in
          let laid : IsLaidOut origin (record r { cursor = value }) =
            (items, symbols, top, ground arith) in
          subst (IsLaidOut origin) (ok_injective made) laid

  statement-IsLaidOut :
      (s : Statement) (r next : FirstPassResult)
      → statement table operand_bytes origin s r ≡ ok next
      → IsLaidOut origin r
      → IsLaidOut origin next
  unfolding statement define_label define_constant move_origin emit_bytes emit_instruction
      validate_cursor
  statement-IsLaidOut (label_decl name) r next h (items, symbols, top, low) =
      let labelled : FirstPassResult = record r {
        names = record r.names { symbols = (name, u16 r.cursor) ∷ r.names.symbols };
      } in
      let (new, checked) = throw_if-then (knows_name name r.names.symbols) duplicate_label _ h in
      let (fits, made) =
        throw_if-then (ltb 0xFFFF r.cursor) address_overflow (ok labelled) checked in
      let laid : IsLaidOut origin labelled = (items, (omega arith, symbols), top, low) in
      subst (IsLaidOut origin) (ok_injective made) laid
  statement-IsLaidOut (equ_decl name value) r next h (items, symbols, top, low) =
      let defined : FirstPassResult = record r {
        names = record r.names { constants = (name, value) ∷ r.names.constants };
      } in
      let (new, checked) =
        throw_if-then (knows_name name r.names.constants) duplicate_constant _ h in
      let (free, made) =
        throw_if-then (knows_name name r.names.symbols) constant_is_label (ok defined) checked in
      let laid : IsLaidOut origin defined = (items, symbols, top, low) in
      subst (IsLaidOut origin) (ok_injective made) laid
  statement-IsLaidOut (directive_stmt org [] path) r next h laid = cc
  statement-IsLaidOut (directive_stmt org (o ∷ []) path) r next h laid = moved o r next h laid
  statement-IsLaidOut (directive_stmt org (o ∷ p ∷ os) path) r next h laid = cc
  statement-IsLaidOut (directive_stmt byte [] path) r next h laid = cc
  statement-IsLaidOut (directive_stmt byte (o ∷ os) path) r next h laid =
      emit-IsLaidOut origin bytes (o ∷ os) (suc (length os)) r next refl (omega arith) h laid
  statement-IsLaidOut (directive_stmt include operands path) r next h laid =
      subst (IsLaidOut origin) (ok_injective h) laid
  statement-IsLaidOut (instruction_stmt mnemonic operands) r next h laid =
      let (info, chosen, emitted) = >>=-eq-ok (select_instruction table mnemonic operands) _ h in
      elim (Option-cases (operand_bytes info.addressing_mode)) [
        | inl none_known ↦ absurd (ground (arith, emitted, none_known))
        | inr (size, known) ↦
            emit-IsLaidOut origin (instruction (u8 info.opcode) info.addressing_mode size) operands
              (1 + size) r next refl (omega arith) (rw known at emitted) laid
      ]

  statements-IsLaidOut :
      (program : List Statement) (r next : FirstPassResult)
      → statements table operand_bytes origin program r ≡ ok next
      → IsLaidOut origin r
      → IsLaidOut origin next
  unfolding statements
  statements-IsLaidOut [] r next h laid = subst (IsLaidOut origin) (ok_injective h) laid
  statements-IsLaidOut (s ∷ rest) r next h laid =
      let (mid, one, others) = >>=-eq-ok (statement table operand_bytes origin s r) _ h in
      statements-IsLaidOut rest mid next others (statement-IsLaidOut s r mid one laid)

  -- With an origin that is a word, the first pass places every item between the origin and the highest
  -- address that it records, which is a word, and gives every label a word.
  pub first_pass-IsLaidOut :
      (program : List Statement) (result : FirstPassResult)
      → origin < 65536
      → first_pass table operand_bytes origin program ≡ ok result
      → IsLaidOut origin result
  unfolding first_pass
  first_pass-IsLaidOut program result word h =
      statements-IsLaidOut program _ result h (tt, tt, word, omega arith)
