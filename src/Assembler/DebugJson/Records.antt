-- ===== src/Assembler/DebugJson/Records.antt =====
-- Records, sources and symbols that EncodeDebugJson writes and the loader reads:
-- assembler/src/cartridge.cpp and sim/src/debug_symbols.cpp.
use irata.Prelude.{
  Text, codes, ℕ, suc, ◌^◌, ◌≤◌, ◌<◌, ◌≡◌, refl, ap, ◌∙◌, List, [], ◌∷◌, ok, ◌>>=◌, arith,
}
use irata.Prelude.Int.{pos}
use irata.Prelude.Digits.{digit_of}
use irata.Sim.Json.{
  JsonValue, object, string, number, members_of, Parsed, consume, map_value, skip_whitespace,
  parse_string, string_body, parse_member, parse_members, parse_object, parse_value, start_of,
}
use irata.Sim.DebugSymbols.{SourceLocation}
use irata.Assembler.DebugJson.{
  DebugRecord, write, write_string, write_decimal, write_address, write_location, write_record,
  write_source, write_symbol,
}
use irata.Assembler.DebugJson.Values.{
  address_text, parse_string-write_address, parse_value-write_string, parse_value-write_address,
  parse_value-write_decimal,
}
use irata.Assembler.DebugJson.Strings.{parse_string-write_string}
use irata.Assembler.DebugJson.Objects.{keyed, put, parse_members-next, parse_members-last}

-- A record that the file can hold: an address of 16 bits, an offset into the ROM, and a position of
-- the source from 1 on that fits an `int`.
pub record IsRecord (rom_size : ℕ) (r : DebugRecord) : Type 0 where
  pub address_small : r.address < 65536
  pub offset_inside : r.rom_offset < rom_size
  pub line_positive : 1 ≤ r.line
  pub line_small : r.line < 2 ^ 31
  pub column_positive : 1 ≤ r.column
  pub column_small : r.column < 2 ^ 31

-- The location of a record.
abbrev pub location_of : DebugRecord → SourceLocation
location_of r = record { file = r.file; line = pos r.line; column = pos r.column; text = r.text }

unfoldable pub location_members : DebugRecord → List (Text × JsonValue) → List (Text × JsonValue)
unfolding put
location_members r found = put (codes "text") (string r.text) (
    put (codes "column") (number (pos r.column))
      (put (codes "line") (number (pos r.line)) (put (codes "file") (string r.file) found)))

abbrev four : ℕ → ℕ
four n = suc (suc (suc (suc n)))

read_location :
    (n m : ℕ) (found : List (Text × JsonValue)) (r : DebugRecord) (rest : Text)
    → r.line < 2 ^ 31
    → r.column < 2 ^ 31
    → parse_members (four n) (parse_value (suc m)) found (write_location r rest)
      ≡ ok (location_members r found, rest)
unfolding write_location parse_member parse_string skip_whitespace string_body digit_of parse_value
    location_members put
read_location n m found r rest h g =
    let value = parse_value (suc m) in
    let text = write_string r.text (b'}' ∷ rest) in
    let column = write_decimal r.column (write (codes ", \"text\": ") text) in
    let line = write_decimal r.line (write (codes ", \"column\": ") column) in
    let found1 = put (codes "file") (string r.file) found in
    let found2 = put (codes "line") (number (pos r.line)) found1 in
    let found3 = put (codes "column") (number (pos r.column)) found2 in
    parse_members-next value (suc (suc (suc n))) found (write_location r rest) (
      ap (keyed (codes "file"))
        (parse_value-write_string m r.file (write (codes ", \"line\": ") line)))
    ∙ parse_members-next value (suc (suc n)) found1 (write (codes " \"line\": ") line) (
        ap (keyed (codes "line")) (
          parse_value-write_decimal m r.line b',' (write (codes " \"column\": ") column)
            (omega (arith, h)) refl))
    ∙ parse_members-next value (suc n) found2 (write (codes " \"column\": ") column) (
        ap (keyed (codes "column")) (
          parse_value-write_decimal m r.column b',' (write (codes " \"text\": ") text)
            (omega (arith, g)) refl))
    ∙ parse_members-last value n found3 (write (codes " \"text\": ") text)
        (ap (keyed (codes "text")) (parse_value-write_string m r.text (b'}' ∷ rest))) refl

-- An object of the members that are found.
abbrev pub object_of : List (Text × JsonValue) → JsonValue
object_of found = object (members_of found)

unfoldable pub record_members : DebugRecord → List (Text × JsonValue)
unfolding location_members put
record_members r = location_members r (
    put (codes "rom_offset") (number (pos r.rom_offset))
      (put (codes "address") (string (address_text r.address)) []))

unfoldable pub record_json : DebugRecord → JsonValue
unfolding record_members
record_json r = object_of (record_members r)

unfoldable pub location_json : DebugRecord → JsonValue
unfolding location_members
location_json r = object_of (location_members r [])

pub parse_value-write_record :
    (n rom_size : ℕ) (r : DebugRecord) (rest : Text)
    → rom_size < 2 ^ 32
    → IsRecord rom_size r
    → parse_value (suc (suc (suc (four n)))) (write_record r rest) ≡ ok (record_json r, rest)
unfolding write_record parse_value start_of parse_object parse_member parse_string skip_whitespace
    string_body digit_of put location_members record_json record_members
parse_value-write_record n rom_size r rest size h =
    let m = suc (four n) in
    let value = parse_value (suc m) in
    let offset = write_decimal r.rom_offset (write (codes ", ") (write_location r rest)) in
    let found1 = put (codes "address") (string (address_text r.address)) [] in
    let found2 = put (codes "rom_offset") (number (pos r.rom_offset)) found1 in
    ap (map_value object_of) (
      parse_members-next value (suc (four n)) []
        (write (codes "\"address\": ")
          (write_address r.address (write (codes ", \"rom_offset\": ") offset)))
        (ap (keyed (codes "address"))
          (parse_value-write_address m r.address (write (codes ", \"rom_offset\": ") offset)))
      ∙ parse_members-next value (four n) found1 (write (codes " \"rom_offset\": ") offset) (
          ap (keyed (codes "rom_offset")) (
            parse_value-write_decimal m r.rom_offset b','
              (write (codes " ") (write_location r rest)) (omega (arith, h.offset_inside, size))
              refl))
      ∙ read_location n m found2 r rest h.line_small h.column_small)

-- What the loop over members makes of a key.
abbrev behind_key : (Text → Parsed JsonValue) → Parsed Text → Parsed (Text × JsonValue)
unfolding skip_whitespace
behind_key value r =
    (r >>= λ key. consume b':' (skip_whitespace key.1) >>= λ rest.
    value rest >>= λ parsed. ok ((key.0, parsed.0), parsed.1))

pub parse_member-write_source :
    (n : ℕ) (address : ℕ) (r : DebugRecord) (rest : Text)
    → r.line < 2 ^ 31
    → r.column < 2 ^ 31
    → parse_member (parse_value (suc (four n))) (write_source (address, r) rest)
      ≡ ok ((address_text address, location_json r), rest)
unfolding write_source parse_value start_of parse_object parse_members parse_member skip_whitespace
    location_json write_location
parse_member-write_source n address r rest h g =
    let value = parse_value (suc (four n)) in
    let location = write (codes "{") (write_location r rest) in
    ap (behind_key value) (parse_string-write_address address (write (codes ": ") location))
    ∙ ap
        (λ (p : Parsed (List (Text × JsonValue))).
          keyed (address_text address) (map_value object_of p))
        (read_location n (suc (suc (suc n))) [] r rest h g)

pub parse_member-write_symbol :
    (n : ℕ) (e : Text × ℕ) (rest : Text)
    → parse_member (parse_value (suc n)) (write_symbol e rest)
      ≡ ok ((e.0, string (address_text e.1)), rest)
unfolding write_symbol parse_member skip_whitespace parse_value
parse_member-write_symbol n e rest =
    let value = parse_value (suc n) in
    ap (behind_key value)
      (parse_string-write_string e.0 (write (codes ": ") (write_address e.1 rest)))
    ∙ ap (keyed e.0) (parse_value-write_address n e.1 rest)
