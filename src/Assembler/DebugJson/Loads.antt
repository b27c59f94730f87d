-- ===== src/Assembler/DebugJson/Loads.antt =====
-- What the loader makes of the values that EncodeDebugJson's text stands for:
-- sim/src/debug_symbols.cpp.
use irata.Prelude.{
  Text, ℕ, ◌%◌, ◌^◌, ◌<◌, ◌≡◌, refl, ap, ◌∙◌, Bool, false, ◌||◌, List, [], ◌∷◌, map, ok, ◌>>=◌,
  ◌>>◌, throw_if, All, arith,
}
use irata.Prelude.Int.{ℤ, pos, ltb_ℤ, leb_ℤ}
use irata.Sim.Json.{JsonValue, string, members_of, entries_of, items_of, values_of}
use irata.Sim.DebugSymbols
use irata.Sim.DebugSymbols.{
  SourceLocation, Loaded, position_not_positive, rom_offset_out_of_range, to_u32, to_int,
  parse_hex_word, parse_strings, load_symbols, load_location, load_record, load_records,
}
use irata.Assembler.DebugJson.{DebugRecord}
use irata.Assembler.DebugJson.Values.{parse_hex_word-address_text}
use irata.Assembler.DebugJson.Objects.{put}
use irata.Assembler.DebugJson.Records.{
  IsRecord, location_of, location_members, record_members, record_json, location_json,
}

pub entries_of-members_of : (es : List (Text × JsonValue)) → entries_of (members_of es) ≡ es
entries_of-members_of [] = refl
entries_of-members_of (e ∷ es) =
    ap (λ (rest : List (Text × JsonValue)). e ∷ rest) (entries_of-members_of es)

pub values_of-items_of : (vs : List JsonValue) → values_of (items_of vs) ≡ vs
values_of-items_of [] = refl
values_of-items_of (v ∷ vs) = ap (λ (rest : List JsonValue). v ∷ rest) (values_of-items_of vs)

to_int-small : (n : ℕ) → n < 2 ^ 31 → to_int (pos n) ≡ pos n
to_int-small n h = ground (arith, h)

-- A location behind its fields.
abbrev located : Text → Text → ℤ → ℤ → Loaded SourceLocation
located file text line column =
    throw_if (ltb_ℤ line (pos 1) || ltb_ℤ column (pos 1)) position_not_positive
    >> ok (record { file = file; line = line; column = column; text = text })

located-location_of :
    (r : DebugRecord) {rom_size : ℕ}
    → IsRecord rom_size r
    → located r.file r.text (to_int (pos r.line)) (to_int (pos r.column)) ≡ ok (location_of r)
located-location_of r h =
    ap (λ (z : ℤ). located r.file r.text z (to_int (pos r.column)))
      (to_int-small r.line h.line_small)
    ∙ ap (located r.file r.text (pos r.line)) (to_int-small r.column h.column_small)
    ∙ ap (λ (b : Bool). throw_if b position_not_positive >> ok (location_of r)) positive
  where
    positive : (ltb_ℤ (pos r.line) (pos 1) || ltb_ℤ (pos r.column) (pos 1)) ≡ false
    positive = ground (arith, h.line_positive, h.column_positive)

pub load_location-location_json :
    (rom_size : ℕ) (r : DebugRecord)
    → IsRecord rom_size r
    → load_location (location_json r) ≡ ok (location_of r)
unfolding load_location location_json location_members put
load_location-location_json rom_size r h = located-location_of r h

-- A record as the loader keeps it.
abbrev pub record_of : DebugRecord → DebugSymbols.DebugRecord
record_of r = record { address = r.address; rom_offset = r.rom_offset; location = location_of r }

-- A record behind its address.
abbrev addressed : ℕ → DebugRecord → Loaded ℕ → Loaded DebugSymbols.DebugRecord
addressed rom_size r word =
    (word >>= λ address.
    throw_if (ltb_ℤ (pos r.rom_offset) (pos 0) || leb_ℤ (pos rom_size) (pos r.rom_offset))
      rom_offset_out_of_range
    >> (located r.file r.text (to_int (pos r.line)) (to_int (pos r.column)) >>= λ location.
        ok (record { address = address; rom_offset = r.rom_offset % 2 ^ 32; location = location })))

load_record-record_json :
    (rom_size : ℕ) (r : DebugRecord)
    → rom_size < 2 ^ 32
    → IsRecord rom_size r
    → load_record rom_size (record_json r) ≡ ok (record_of r)
unfolding load_record load_location record_json record_members location_members put
load_record-record_json rom_size r size h =
    ap (addressed rom_size r) (parse_hex_word-address_text r.address h.address_small)
    ∙ ap
        (λ (b : Bool).
          throw_if b rom_offset_out_of_range
          >> kept (located r.file r.text (to_int (pos r.line)) (to_int (pos r.column))))
        inside
    ∙ ap kept (located-location_of r h)
    ∙ ap (λ (n : ℕ). ok (record { address = r.address; rom_offset = n; location = location_of r }))
        small
  where
    kept : Loaded SourceLocation → Loaded DebugSymbols.DebugRecord
    kept l = l >>= λ location.
        ok (record { address = r.address; rom_offset = r.rom_offset % 2 ^ 32; location = location })

    inside : (ltb_ℤ (pos r.rom_offset) (pos 0) || leb_ℤ (pos rom_size) (pos r.rom_offset)) ≡ false
    inside = ground (arith, h.offset_inside)

    small : r.rom_offset % 2 ^ 32 ≡ r.rom_offset
    small = omega (arith, h.offset_inside, size)

pub load_records-record_json :
    (rom_size : ℕ) (records : List DebugRecord)
    → rom_size < 2 ^ 32
    → All (IsRecord rom_size) records
    → load_records rom_size (map record_json records) ≡ ok (map record_of records)
unfolding load_records
load_records-record_json rom_size [] size h = refl
load_records-record_json rom_size (r ∷ rs) size h =
    ap
      (λ (first : Loaded DebugSymbols.DebugRecord). first >>= λ loaded.
        load_records rom_size (map record_json rs) >>= λ rest. ok (loaded ∷ rest))
      (load_record-record_json rom_size r size h.0)
    ∙ ap
        (λ (others : Loaded (List DebugSymbols.DebugRecord)).
          others >>= λ rest. ok (record_of r ∷ rest))
        (load_records-record_json rom_size rs size h.1)

pub parse_strings-string : (files : List Text) → parse_strings (map string files) ≡ ok files
unfolding parse_strings
parse_strings-string [] = refl
parse_strings-string (f ∷ fs) =
    ap (λ (others : Loaded (List Text)). others >>= λ rest. ok (f ∷ rest)) (parse_strings-string fs)
