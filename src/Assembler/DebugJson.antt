-- ===== src/Assembler/DebugJson.antt =====
-- The debug file that the assembler writes: EscapeJson and EncodeDebugJson of
-- assembler/src/cartridge.cpp. A stream is what is written, in front of what follows.
pub mod Strings
pub mod Values
pub mod Objects
pub mod Records
pub mod Loads
pub mod Lookups
pub mod Lengths
pub mod Parts
pub mod RoundTrip
pub mod Loaded
use irata.Prelude.{
  Text, same_text, less_text, codes, ℕ, ◌/◌, ◌%◌, Bool, true, false, Option, none, some, List, [],
  ◌∷◌, null, ltb, ◌==◌, if◌then◌else◌,
}
use irata.Prelude.Digits.{digit_char, write_number}
use irata.Prelude.Maps.{emplace_keys}
use irata.Cartridge.{CartridgeHeader}

pub record DebugRecord : Type 0 where
  pub address : ℕ
  pub rom_offset : ℕ
  pub file : Text
  pub line : ℕ
  pub column : ℕ
  pub text : Text

-- A literal of the source.
abbrev pub write : Text → Text → Text
write [] out = out
write (c ∷ cs) out = c ∷ write cs out

-- A control character, with `std::hex`, a width of four and zeros to fill it.
abbrev pub write_control : ℕ → Text → Text
write_control c out = b'\\' ∷ b'u' ∷ b'0' ∷ b'0' ∷ digit_char (c / 16) ∷ digit_char (c % 16) ∷ out

abbrev pub escape_char : ℕ → Text → Text
escape_char c out =
    if c == b'"'
    then b'\\' ∷ b'"' ∷ out
    else if c == b'\\'
    then b'\\' ∷ b'\\' ∷ out
    else if c == b'\n'
    then b'\\' ∷ b'n' ∷ out
    else if c == b'\r'
    then b'\\' ∷ b'r' ∷ out
    else if c == b'\t'
    then b'\\' ∷ b't' ∷ out
    else if ltb c 0x20
    then write_control c out
    else c ∷ out

-- `EscapeJson`
unfoldable pub escape_json : Text → Text → Text
escape_json [] out = out
escape_json (c ∷ cs) out = escape_char c (escape_json cs out)

-- A string in quotes.
unfoldable pub write_string : Text → Text → Text
unfolding escape_json
write_string s out = b'"' ∷ escape_json s (b'"' ∷ out)

unfoldable pub write_decimal : ℕ → Text → Text
unfolding write_number
write_decimal n out = write_number 10 n out

-- An address in quotes, with `std::hex`.
unfoldable pub write_address : ℕ → Text → Text
unfolding write_number
write_address w out = b'"' ∷ b'0' ∷ b'x' ∷ write_number 16 w (b'"' ∷ out)

-- The lines of a list: a comma behind each but the last.
unfoldable pub write_lines : {A : Type 0} → (A → Text → Text) → List A → Text → Text
write_lines line [] out = out
write_lines line (a ∷ others) out =
    let later = write_lines line others out in
    line a (if null others then b'\n' ∷ later else b',' ∷ b'\n' ∷ later)

-- The list of the source files.
unfoldable pub write_files : List Text → Text → Text
unfolding write_string
write_files [] out = out
write_files (f ∷ fs) out =
    let later = write_files fs out in
    write_string f (if null fs then later else b',' ∷ b' ' ∷ later)

unfoldable pub write_symbol : Text × ℕ → Text → Text
unfolding write_string write_address
write_symbol e out =
    write (codes "    ") (write_string e.0 (write (codes ": ") (write_address e.1 out)))

-- The file, the line, the column and the text of a record.
unfoldable pub write_location : DebugRecord → Text → Text
unfolding write_string write_decimal
write_location r out = write (codes "\"file\": ") (
    write_string r.file (
      write (codes ", \"line\": ") (
        write_decimal r.line (
          write (codes ", \"column\": ") (
            write_decimal r.column
              (write (codes ", \"text\": ") (write_string r.text (b'}' ∷ out))))))))

unfoldable pub write_source : ℕ × DebugRecord → Text → Text
unfolding write_address write_location
write_source e out =
    write (codes "    ") (write_address e.0 (write (codes ": {") (write_location e.1 out)))

unfoldable pub write_record : DebugRecord → Text → Text
unfolding write_address write_decimal write_location
write_record r out = write (codes "    {\"address\": ") (
    write_address r.address (
      write (codes ", \"rom_offset\": ")
        (write_decimal r.rom_offset (write (codes ", ") (write_location r out)))))

abbrev pub entry_of : DebugRecord → ℕ × DebugRecord
entry_of r = (r.address, r)

abbrev pub entries_of : List DebugRecord → List (ℕ × DebugRecord)
entries_of [] = []
entries_of (r ∷ rs) = entry_of r ∷ entries_of rs

-- `std::map<std::string, base::Word>` of the symbols.
unfoldable pub sorted_symbols : List (Text × ℕ) → List (Text × ℕ)
unfolding emplace_keys
sorted_symbols symbols = emplace_keys same_text less_text symbols []

-- `std::map<uint16_t, DebugRecord>` of the records.
unfoldable pub pc_entries : List DebugRecord → List (ℕ × DebugRecord)
unfolding emplace_keys
pc_entries records = emplace_keys (λ a b. a == b) ltb (entries_of records) []

-- What stands between the braces of the symbols.
unfoldable pub write_symbols : List (Text × ℕ) → Text → Text
unfolding write_lines write_symbol
write_symbols [] out = out
write_symbols (e ∷ es) out = b'\n' ∷ write_lines write_symbol (e ∷ es) (write (codes "  ") out)

-- `EncodeDebugJson`
unfoldable pub encode_debug_json :
    CartridgeHeader → Text → Text → List Text → List (Text × ℕ) → List DebugRecord → Text
unfolding write_string write_decimal write_address write_files sorted_symbols write_symbols
    write_lines write_source pc_entries write_record
encode_debug_json header schema_version source_root source_files symbols records =
    write (codes "{\n  \"version\": ") (
      write_string schema_version (
        write (codes ",\n  \"cartridge_version\": ") (
          write_decimal header.version (
            write (codes ",\n  \"entry\": ") (
              write_address header.entry (
                write (codes ",\n  \"rom_size\": ") (
                  write_decimal header.rom_size (
                    write (codes ",\n  \"source_root\": ") (
                      write_string source_root (
                        write (codes ",\n  \"source_files\": [") (
                          write_files source_files (
                            write (codes "],\n  \"symbols\": {") (
                              write_symbols (sorted_symbols symbols) (
                                write (codes "},\n  \"pc_to_source\": {\n") (
                                  write_lines write_source (pc_entries records) (
                                    write (codes "  },\n  \"records\": [\n") (
                                      write_lines write_record records
                                        (codes "  ]\n}\n"))))))))))))))))))
