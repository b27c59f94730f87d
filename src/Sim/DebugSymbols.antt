-- ===== src/Sim/DebugSymbols.antt =====
-- Debug symbols: sim/src/debug_symbols.cpp from RequireObject on, and its header. The label of a
-- message is left out, and the file's content is an argument.
use irata.Prelude.{
  Text, same_text, codes, ℕ, ◌-◌, ◌%◌, ◌^◌, Bool, true, false, not, ◌&&◌, ◌||◌, Option, none, some,
  List, [], ◌∷◌, leb, ltb, ◌==◌, if◌then◌else◌, Result, ok, err, ◌>>=◌, ◌>>◌, throw_if,
}
use irata.Prelude.Int.{ℤ, pos, negsuc, ltb_ℤ, leb_ℤ}
use irata.Prelude.Digits.{digit_of, scan}
use irata.Prelude.Maps.{find_key, add_key}
use irata.Sim.Json.{
  JsonError, JsonValue, object, array, string, number, entries_of, values_of, peek, parse,
}

-- The `SimError`s of the loader, with those of the parser.
pub data SymbolsError : Type 0 where
  json : JsonError → SymbolsError
  expected_object missing_field expected_string expected_number expected_array : SymbolsError
  expected_hex invalid_hex hex_out_of_range rom_size_not_positive : SymbolsError
  negative_cartridge_version position_not_positive duplicate_address : SymbolsError
  rom_offset_out_of_range : SymbolsError

pub record SourceLocation : Type 0 where
  pub file : Text
  pub line : ℤ
  pub column : ℤ
  pub text : Text

pub record DebugRecord : Type 0 where
  pub address : ℕ
  pub rom_offset : ℕ
  pub location : SourceLocation

pub record DebugSymbols : Type 0 where
  pub version : Text
  pub entry : ℕ
  pub rom_size : ℕ
  pub cartridge_version : ℕ
  pub source_root : Text
  pub source_files : List Text
  pub symbols : List (Text × ℕ)
  pub pc_to_source : List (ℕ × SourceLocation)
  pub records : List DebugRecord

abbrev pub Loaded : Type 0 → Type 0
Loaded A = Result SymbolsError A

-- `DebugSymbols::Lookup`
abbrev pub lookup : DebugSymbols → ℕ → Option SourceLocation
lookup symbols address = find_key (λ a b. a == b) address symbols.pc_to_source

abbrev pub require_object : JsonValue → Loaded (List (Text × JsonValue))
require_object (object members) = ok (entries_of members)
require_object _ = err expected_object

abbrev pub field_or : Option JsonValue → Loaded JsonValue
field_or (some v) = ok v
field_or none = err missing_field

abbrev pub require_field : JsonValue → Text → Loaded JsonValue
require_field v key = require_object v >>= λ entries. field_or (find_key same_text key entries)

abbrev pub require_string : JsonValue → Loaded Text
require_string (string s) = ok s
require_string _ = err expected_string

abbrev pub require_number : JsonValue → Loaded ℤ
require_number (number n) = ok n
require_number _ = err expected_number

abbrev pub require_array : JsonValue → Loaded (List JsonValue)
require_array (array items) = ok (values_of items)
require_array _ = err expected_array

-- `static_cast<uint32_t>`
abbrev pub to_u32 : ℤ → ℕ
to_u32 (pos n) = n % 2 ^ 32
to_u32 (negsuc n) = 2 ^ 32 - 1 - n % 2 ^ 32

-- `static_cast<int>`
abbrev pub to_int : ℤ → ℤ
to_int z = if ltb (to_u32 z) (2 ^ 31) then pos (to_u32 z) else negsuc (2 ^ 32 - 1 - to_u32 z)

-- `std::isspace`
abbrev pub is_space : ℕ → Bool
is_space c = c == b' ' || (leb 9 c && leb c 13)

unfoldable pub skip_spaces : Text → Text
skip_spaces [] = []
skip_spaces (c ∷ cs) = let rest = skip_spaces cs in if is_space c then rest else c ∷ cs

-- A sign, and what is behind it.
abbrev pub split_sign : Text → Bool × Text
split_sign [] = (false, [])
split_sign (c ∷ cs) =
    if c == b'-' then (true, cs) else if c == b'+' then (false, cs) else (false, c ∷ cs)

unfoldable pub is_hex : ℕ → Bool
unfolding digit_of
is_hex c = elim (digit_of 16 c) [ some d ↦ true | none ↦ false ]

-- The `0x` that `std::stoul` accepts in base 16, in front of a digit.
unfoldable pub skip_prefix : Text → Text
unfolding is_hex
skip_prefix (a ∷ b ∷ c ∷ rest) =
    if a == b'0' && (b == b'x' || b == b'X') && is_hex c then c ∷ rest else a ∷ b ∷ c ∷ rest
skip_prefix s = s

-- The number of the digits behind the sign and the prefix.
unfoldable pub stoul_digits : Bool → Text → Option ℕ
unfolding scan is_hex
stoul_digits negative digits =
    let value = (scan 16 0 digits).0 in
    if not (is_hex (peek digits)) || leb (2 ^ 64) value
    then none
    else some (if negative then (2 ^ 64 - value) % 2 ^ 64 else value)

-- `std::stoul` in base 16, of 64 bits: no value where it throws. What follows the digits is ignored.
unfoldable pub stoul : Text → Option ℕ
unfolding skip_spaces skip_prefix stoul_digits
stoul s = let signed = split_sign (skip_spaces s) in stoul_digits signed.0 (skip_prefix signed.1)

abbrev pub hex_word : Option ℕ → Loaded ℕ
hex_word none = err invalid_hex
hex_word (some value) =
    throw_if (ltb 0xFFFF (value % 2 ^ 32)) hex_out_of_range >> ok (value % 2 ^ 32)

-- `ParseHexWord`
unfoldable pub parse_hex_word : Text → Loaded ℕ
unfolding stoul
parse_hex_word (a ∷ b ∷ rest) =
    throw_if (not (a == b'0' && (b == b'x' || b == b'X'))) expected_hex >> hex_word (stoul rest)
parse_hex_word s = err expected_hex

abbrev pub require_hex : JsonValue → Text → Loaded ℕ
unfolding parse_hex_word
require_hex v key = require_field v key >>= λ field. require_string field >>= λ s. parse_hex_word s

-- `ParseStringArray`
unfoldable pub parse_strings : List JsonValue → Loaded (List Text)
parse_strings [] = ok []
parse_strings (v ∷ vs) = (require_string v >>= λ s. parse_strings vs >>= λ rest. ok (s ∷ rest))

-- The loop over the symbols.
unfoldable pub load_symbols : List (Text × JsonValue) → List (Text × ℕ) → Loaded (List (Text × ℕ))
unfolding parse_hex_word add_key
load_symbols [] found = ok found
load_symbols (e ∷ es) found =
    (require_string e.1 >>= λ s.
    parse_hex_word s >>= λ word. load_symbols es (add_key same_text e.0 word found))

-- The location that a source entry and a record hold.
unfoldable pub load_location : JsonValue → Loaded SourceLocation
load_location v =
    (require_field v (codes "file") >>= require_string >>= λ file.
    require_field v (codes "line") >>= require_number >>= λ line.
    require_field v (codes "column") >>= require_number >>= λ column.
    throw_if (ltb_ℤ (to_int line) (pos 1) || ltb_ℤ (to_int column) (pos 1)) position_not_positive
    >> (require_field v (codes "text") >>= require_string >>= λ text.
        ok (record { file = file; line = to_int line; column = to_int column; text = text })))

abbrev pub insert_source :
    ℕ → SourceLocation → List (ℕ × SourceLocation) → Loaded (List (ℕ × SourceLocation))
insert_source address location found = elim (find_key (λ a b. a == b) address found) [
  | some there ↦ err duplicate_address
  | none ↦ ok ((address, location) ∷ found)
]

-- The loop over the sources.
unfoldable pub load_sources :
    List (Text × JsonValue) → List (ℕ × SourceLocation) → Loaded (List (ℕ × SourceLocation))
unfolding load_location parse_hex_word
load_sources [] found = ok found
load_sources (e ∷ es) found =
    (load_location e.1 >>= λ location. parse_hex_word e.0 >>= λ address.
    insert_source address location found >>= λ inserted. load_sources es inserted)

-- A record of the list.
unfoldable pub load_record : ℕ → JsonValue → Loaded DebugRecord
unfolding load_location parse_hex_word
load_record rom_size v =
    (require_hex v (codes "address") >>= λ address.
    require_field v (codes "rom_offset") >>= require_number >>= λ rom_offset.
    throw_if (ltb_ℤ rom_offset (pos 0) || leb_ℤ (pos rom_size) rom_offset) rom_offset_out_of_range
    >> (load_location v >>= λ location.
        ok (record { address = address; rom_offset = to_u32 rom_offset; location = location })))

-- The loop over the records.
unfoldable pub load_records : ℕ → List JsonValue → Loaded (List DebugRecord)
unfolding load_record
load_records rom_size [] = ok []
load_records rom_size (v ∷ vs) =
    (load_record rom_size v >>= λ r. load_records rom_size vs >>= λ rest. ok (r ∷ rest))

-- The version of the cartridge, which may be missing.
abbrev pub cartridge_version_of : Option JsonValue → Loaded ℕ
cartridge_version_of (some (number n)) =
    throw_if (ltb_ℤ n (pos 0)) negative_cartridge_version >> ok (to_u32 n)
cartridge_version_of v = ok 0

-- `LoadDebugSymbols` behind the parser.
unfoldable pub load_root : JsonValue → Loaded DebugSymbols
unfolding parse_hex_word parse_strings load_symbols load_sources load_records
load_root root =
    (require_object root >>= λ entries.
    require_field root (codes "version") >>= require_string >>= λ version.
    require_hex root (codes "entry") >>= λ entry.
    require_field root (codes "rom_size") >>= require_number >>= λ rom_size.
    throw_if (leb_ℤ rom_size (pos 0)) rom_size_not_positive
    >> (cartridge_version_of (find_key same_text (codes "cartridge_version") entries)
        >>= λ cartridge_version.
            require_field root (codes "source_root") >>= require_string >>= λ source_root.
            require_field root (codes "source_files")
            >>= require_array
            >>= parse_strings
            >>= λ source_files.
                require_field root (codes "symbols") >>= require_object >>= λ symbol_entries.
                load_symbols symbol_entries [] >>= λ symbols.
                require_field root (codes "pc_to_source") >>= require_object >>= λ source_entries.
                load_sources source_entries [] >>= λ pc_to_source.
                require_field root (codes "records")
                >>= require_array
                >>= load_records (to_u32 rom_size)
                >>= λ records. ok (record {
                  version = version;
                  entry = entry;
                  rom_size = to_u32 rom_size;
                  cartridge_version = cartridge_version;
                  source_root = source_root;
                  source_files = source_files;
                  symbols = symbols;
                  pc_to_source = pc_to_source;
                  records = records;
                })))

abbrev pub parsed_json : Result JsonError JsonValue → Loaded JsonValue
parsed_json (ok v) = ok v
parsed_json (err e) = err (json e)

-- `LoadDebugSymbols` of a file's content.
unfoldable pub load_debug_symbols : Text → Loaded DebugSymbols
unfolding parse load_root
load_debug_symbols content = parsed_json (parse content) >>= load_root
