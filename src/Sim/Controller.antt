-- ===== src/Sim/Controller.antt =====
-- The controller: sim/src/controller/control_encoder.cpp, status_encoder.cpp, instruction_memory.cpp
-- and controller.cpp. A control and a status flag are references; what a control's path is, is a
-- parameter, and a flag is its bit of the status byte.
pub mod Lookup
pub mod Rom
pub mod Program
pub mod Flags
use irata.Prelude.{
  Text, same_text, find_name, ℕ, zero, suc, ◌+◌, ◌^◌, max, bit_and, bit_or, Bool, true, false, not,
  Option, none, some, List, [], ◌∷◌, map, length, get_or, set, replicate, ◌==◌, ltb, leb,
  if◌then◌else◌, Result, ok, err, ◌>>=◌, ◌>>◌, throw_if,
}
use irata.Bits.{u8, u32, shl, shr}
use irata.Sim.Status.{value}
use irata.Microcode.Encoder.{StatusBits}
use irata.Microcode.Compiler.{Table, MicrocodeProgram}

pub data ControllerError : Type 0 where
  too_many_controls table_size_mismatch path_order_mismatch : ControllerError
  too_many_status_bits unknown_status_bit bit_index_mismatch : ControllerError
  key_exceeds_rom rom_out_of_bounds outside_control_table : ControllerError

-- `ControlEncoder::Initialize`: the loop over the two orders.
unfoldable pub check_paths : (ℕ → Text) → List Text → List ℕ → Result ControllerError (Unit {0})
check_paths path_of (expected ∷ paths) (control ∷ order) =
    throw_if (not (same_text (path_of control) expected)) path_order_mismatch
    >> check_paths path_of paths order
check_paths path_of _ _ = ok tt

unfoldable pub initialize_controls :
    (ℕ → Text) → List Text → List ℕ → Result ControllerError (List ℕ)
unfolding check_paths
initialize_controls path_of control_paths control_order = do
  throw_if (ltb 128 (length control_paths)) too_many_controls
  throw_if (not (length control_order == length control_paths)) table_size_mismatch
  check_paths path_of control_paths control_order
  ok control_order

-- The flags of the status register under their names, `negative` first, with their bits.
abbrev pub status_map : List (Text × ℕ)
status_map =
    ((110 ∷ 101 ∷ 103 ∷ 97 ∷ 116 ∷ 105 ∷ 118 ∷ 101 ∷ []), 7)
    ∷ ((111 ∷ 118 ∷ 101 ∷ 114 ∷ 102 ∷ 108 ∷ 111 ∷ 119 ∷ []), 6)
    ∷ ((117 ∷ 110 ∷ 117 ∷ 115 ∷ 101 ∷ 100 ∷ []), 5)
    ∷ ((98 ∷ 114 ∷ 101 ∷ 97 ∷ 107 ∷ []), 4)
    ∷ ((100 ∷ 101 ∷ 99 ∷ 105 ∷ 109 ∷ 97 ∷ 108 ∷ []), 3)
    ∷ (
      (105 ∷ 110 ∷ 116 ∷ 101 ∷ 114 ∷ 114 ∷ 117 ∷ 112 ∷ 116 ∷ 95 ∷ 100 ∷ 105 ∷ 115 ∷ 97 ∷ 98 ∷ 108
          ∷ 101 ∷ []),
      2,
    )
    ∷ ((122 ∷ 101 ∷ 114 ∷ 111 ∷ []), 1)
    ∷ ((99 ∷ 97 ∷ 114 ∷ 114 ∷ 121 ∷ []), 0)
    ∷ []

-- The loop of `StatusEncoder::Initialize`. A reference to a flag is its `bit_index`.
unfoldable pub find_statuses : StatusBits → Result ControllerError (List ℕ)
find_statuses [] = ok []
find_statuses (bit_def ∷ rest) = elim (find_name bit_def.0 status_map) [
  | none ↦ err unknown_status_bit
  | some bit_index ↦
      throw_if (not (bit_index == bit_def.1)) bit_index_mismatch
      >> (find_statuses rest >>= λ others. ok (bit_index ∷ others))
]

unfoldable pub initialize_statuses : StatusBits → Result ControllerError (List ℕ)
unfolding find_statuses
initialize_statuses bits = throw_if (ltb 8 (length bits)) too_many_status_bits >> find_statuses bits

-- `StatusEncoder::Encode`, with the byte so far.
unfoldable pub encode_statuses : ℕ → List ℕ → ℕ → ℕ
encode_statuses status [] encoded = encoded
encode_statuses status (bit_index ∷ rest) encoded =
    encode_statuses status rest
      (if value status bit_index then u8 (bit_or encoded (u8 (shl 1 bit_index))) else encoded)

-- `StatusEncoder::Decode` from position `i` on.
unfoldable pub decode_statuses : ℕ → List ℕ → ℕ → List Bool
decode_statuses i [] encoded = []
decode_statuses i (reference ∷ rest) encoded =
    (bit_and (shr encoded i) 1 == 1) ∷ decode_statuses (suc i) rest encoded

-- `StatusEncoder::Permute`, the encodings from `encoding` on, `n` of them.
unfoldable pub permute_from : ℕ → ℕ → ℕ → ℕ → List ℕ
permute_from zero encoding status_mask status_value = []
permute_from (suc n) encoding status_mask status_value =
    let rest = permute_from n (suc encoding) status_mask status_value in
    if bit_and (u8 encoding) status_mask == bit_and status_value status_mask
    then u8 encoding ∷ rest
    else rest

unfoldable pub permute : List ℕ → ℕ → ℕ → List ℕ
unfolding permute_from
permute references status_mask status_value =
    if length references == 0
    then 0 ∷ []
    else permute_from (2 ^ length references) 0 status_mask status_value

pub record InstructionMemory : Type 0 where
  pub references : List ℕ
  pub statuses : List ℕ
  pub rom : List ℕ

unfoldable pub max_address : Table → ℕ
max_address [] = 0
max_address (e ∷ es) = max (max_address es) e.0

-- The loop that burns the table: an unordered map has each key once, in no order.
unfoldable pub burn : Table → List ℕ → Result ControllerError (List ℕ)
burn [] rom = ok rom
burn (e ∷ es) rom =
    (burn es rom >>= λ burnt.
    throw_if (leb (length burnt) e.0) key_exceeds_rom >> ok (set burnt e.0 e.1))

unfoldable pub new_rom : Table → Result ControllerError (List ℕ)
unfolding max_address burn
new_rom table = burn table (replicate (suc (max_address table)) 0)

-- `InstructionMemory::InstructionMemory`. `name_of` is the path that the microcode program has for a
-- control, `path_of` the path of the simulator's.
unfoldable pub new_instruction_memory :
    (ℕ → Text) → (ℕ → Text) → MicrocodeProgram → List ℕ → Result ControllerError InstructionMemory
unfolding initialize_controls initialize_statuses new_rom
new_instruction_memory path_of name_of program control_order =
    (initialize_controls path_of (map name_of program.controls) control_order >>= λ references.
    initialize_statuses program.status_bits >>= λ statuses. new_rom program.table >>= λ rom.
    ok (record { references = references; statuses = statuses; rom = rom }))

-- The loop that picks the controls of a word, from bit `i` on.
unfoldable pub extract_controls : ℕ → List ℕ → ℕ → List ℕ
extract_controls i [] control_word = []
extract_controls i (control ∷ rest) control_word =
    let others = extract_controls (suc i) rest control_word in
    if bit_and (shr control_word i) 1 == 1 then control ∷ others else others

unfoldable pub lookup_address : ℕ → ℕ → ℕ → ℕ
lookup_address opcode step status = bit_or (bit_or (u32 (shl opcode 16)) (u32 (shl step 8))) status

-- `InstructionMemory::Lookup`
unfoldable pub lookup : InstructionMemory → ℕ → ℕ → ℕ → Result ControllerError (List ℕ)
unfolding extract_controls lookup_address
lookup m opcode step status =
    let address = lookup_address opcode step status in
    let control_word = get_or m.rom address 0 in
    let num_controls = length m.references in
    throw_if (leb (length m.rom) address) rom_out_of_bounds
    >> (throw_if (if ltb num_controls 128 then not (shr control_word num_controls == 0) else false)
          outside_control_table
        >> ok (extract_controls 0 m.references control_word))
