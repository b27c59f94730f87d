-- ===== src/Assembler/DebugJson/Loaded.antt =====
-- The debug file that the assembler writes, loaded by the simulator: EncodeDebugJson of
-- assembler/src/cartridge.cpp and LoadDebugSymbols of sim/src/debug_symbols.cpp.
use irata.Prelude.{
  Text, same_text, codes, ℕ, suc, ◌+◌, ◌-◌, ◌^◌, ◌≤◌, ◌<◌, ◌≡◌, refl, ap, ◌∙◌, not, List, [], ◌∷◌,
  map, length, null, ok, Result, ◌>>=◌, ◌>>◌, throw_if, All, ltb, ==→eq, arith,
}
use irata.Prelude.Maps.{find_key, emplace_keys-All}
use irata.Prelude.Maps.Keys.{map_option}
use irata.Cartridge.{CartridgeHeader}
use irata.Sim.Json.{JsonError, JsonValue, extra_data, Parsed, parse_value, skip_whitespace, parse}
use irata.Sim.DebugSymbols
use irata.Sim.DebugSymbols.{Loaded, parsed_json, lookup, load_root, load_debug_symbols}
use irata.Assembler.DebugJson.{
  DebugRecord, entries_of, write, write_string, write_decimal, write_address, write_files,
  write_symbols, sorted_symbols, write_lines, write_source, pc_entries, write_record,
  encode_debug_json,
}
use irata.Assembler.DebugJson.Records.{IsRecord, location_of, object_of}
use irata.Assembler.DebugJson.Loads.{record_of}
use irata.Assembler.DebugJson.Lookups.{
  IsSmall, IsSource, equal_ℕ, entries_of-IsSource, load_symbols-symbol_members,
  load_sources-source_members,
}
use irata.Assembler.DebugJson.Parts.{nine, IsPlaced}
use irata.Assembler.DebugJson.Lengths.{
  write_string-length, write_decimal-length, write_address-length, write_files-length,
  write_symbols-length, write_lines-length, write_source-length, write_record-length,
}
use irata.Assembler.DebugJson.RoundTrip.{
  json_text, root_members, parse_value-encode_debug_json, load_root-root_members,
}

module _ (header : CartridgeHeader) (schema source_root : Text) (files : List Text)
    (symbols : List (Text × ℕ)) (records : List DebugRecord) where
  -- What the debug file's arguments and what is loaded have in common.
  pub record Describes (d : DebugSymbols.DebugSymbols) : Type 0 where
    pub version : d.version ≡ schema
    pub entry : d.entry ≡ header.entry
    pub rom_size : d.rom_size ≡ header.rom_size
    pub cartridge_version : d.cartridge_version ≡ header.version
    pub root : d.source_root ≡ source_root
    pub source_files : d.source_files ≡ files
    pub symbols_by_name :
        (name : Text) → find_key same_text name d.symbols ≡ find_key same_text name symbols
    pub sources_by_address :
        (a : ℕ) → lookup d a ≡ map_option location_of (find_key equal_ℕ a (entries_of records))
    pub records_kept : d.records ≡ map record_of records

  -- Arguments that the file can hold.
  pub record IsDebugInfo : Type 0 where
    pub version_small : header.version < 2 ^ 16
    pub entry_small : header.entry < 65536
    pub rom_positive : 1 ≤ header.rom_size
    pub rom_small : header.rom_size < 2 ^ 32
    pub symbols_small : All IsSmall symbols
    pub all_records : All (IsRecord header.rom_size) records

  encode_debug_json-length :
      length files
        + length (sorted_symbols symbols)
        + length (pc_entries records)
        + length records
        + 9
      ≤ length (encode_debug_json header schema source_root files symbols records)
  unfolding encode_debug_json
  encode_debug_json-length =
      let x9 = write_lines write_record records (codes "  ]\n}\n") in
      let s9 = write (codes "  },\n  \"records\": [\n") x9 in
      let x8 = write_lines write_source (pc_entries records) s9 in
      let s8 = write (codes "},\n  \"pc_to_source\": {\n") x8 in
      let x7 = write_symbols (sorted_symbols symbols) s8 in
      let s7 = write (codes "],\n  \"symbols\": {") x7 in
      let x6 = write_files files s7 in
      let s6 = write (codes ",\n  \"source_files\": [") x6 in
      let x5 = write_string source_root s6 in
      let s5 = write (codes ",\n  \"source_root\": ") x5 in
      let x4 = write_decimal header.rom_size s5 in
      let s4 = write (codes ",\n  \"rom_size\": ") x4 in
      let x3 = write_address header.entry s4 in
      let s3 = write (codes ",\n  \"entry\": ") x3 in
      let x2 = write_decimal header.version s3 in
      let s2 = write (codes ",\n  \"cartridge_version\": ") x2 in
      omega (
        arith,
        write_lines-length write_record records (codes "  ]\n}\n") write_record-length,
        write_lines-length write_source (pc_entries records) s9 write_source-length,
        write_symbols-length (sorted_symbols symbols) s8,
        write_files-length files s7,
        write_string-length source_root s6,
        write_decimal-length header.rom_size s5,
        write_address-length header.entry s4,
        write_decimal-length header.version s3,
        write_string-length schema s2,
      )

  pc_entries-IsPlaced : All (IsRecord header.rom_size) records → All IsPlaced (pc_entries records)
  unfolding pc_entries
  pc_entries-IsPlaced h = placed (pc_entries records) (
      emplace_keys-All equal_ℕ ltb ==→eq (IsSource header.rom_size) (entries_of records) [] tt
        (entries_of-IsSource header.rom_size records h))
    where
      placed : (es : List (ℕ × DebugRecord)) → All (IsSource header.rom_size) es → All IsPlaced es
      placed [] g = tt
      placed (e ∷ es) g = ((g.0.1.line_small, g.0.1.column_small), placed es g.1)

  -- What the parser makes of the value and the text behind it.
  abbrev finished : Parsed JsonValue → Result JsonError JsonValue
  finished r =
      r >>= λ parsed. throw_if (not (null (skip_whitespace parsed.1))) extra_data >> ok parsed.0

  skip_whitespace-encode_debug_json :
      skip_whitespace (json_text header schema source_root files symbols records)
      ≡ json_text header schema source_root files symbols records
  unfolding json_text encode_debug_json skip_whitespace
  skip_whitespace-encode_debug_json = refl

  parse-encode_debug_json :
      IsDebugInfo
      → parse (encode_debug_json header schema source_root files symbols records)
        ≡ ok (object_of (root_members header schema source_root files symbols records))
  unfolding parse json_text
  parse-encode_debug_json h =
      let t = json_text header schema source_root files symbols records in
      let n = length t - 9 in
      let long : length files
            + length (sorted_symbols symbols)
            + length (pc_entries records)
            + length records
            + 9
          ≤ length t =
        encode_debug_json-length in
      let fuel : length t ≡ nine n = omega (arith, long) in
      ap (λ (m : ℕ). finished (parse_value (suc m) (skip_whitespace t))) fuel
      ∙ ap (λ (s : Text). finished (parse_value (suc (nine n)) s)) skip_whitespace-encode_debug_json
      ∙ ap finished (
          parse_value-encode_debug_json header schema source_root files symbols records n
            h.version_small h.rom_small h.all_records (pc_entries-IsPlaced h.all_records)
            (omega (arith, long)) (omega (arith, long)) (omega (arith, long)) (omega (arith, long)))

  -- The debug file that the assembler writes is loaded by the simulator, and what is loaded has the
  -- version, the entry, the sizes, the files, the symbols and the records that were written, and for
  -- each address the location of the first record with it. The addresses have 16 bits, the ROM is not
  -- empty and its size has 32 bits, the offsets of the records lie in it, and lines and columns count
  -- from 1 and fit an `int`.
  pub load_debug_symbols-encode_debug_json :
      IsDebugInfo
      → (d : DebugSymbols.DebugSymbols) × (load_debug_symbols
            (encode_debug_json header schema source_root files symbols records)
          ≡ ok d)
        × Describes d
  unfolding load_debug_symbols
  load_debug_symbols-encode_debug_json h =
      let (found_symbols, symbols_read, by_name) =
        load_symbols-symbol_members symbols h.symbols_small in
      let (found_sources, sources_read, by_address) =
        load_sources-source_members header.rom_size records h.all_records in
      (
        record {
          version = schema;
          entry = header.entry;
          rom_size = header.rom_size;
          cartridge_version = header.version;
          source_root = source_root;
          source_files = files;
          symbols = found_symbols;
          pc_to_source = found_sources;
          records = map record_of records;
        },
        ap (λ (r : Result JsonError JsonValue). parsed_json r >>= load_root)
              (parse-encode_debug_json h)
            ∙ load_root-root_members header schema source_root files symbols records h.entry_small
                h.rom_positive h.rom_small h.version_small found_symbols symbols_read found_sources
                sources_read h.all_records,
        record {
          version = refl;
          entry = refl;
          rom_size = refl;
          cartridge_version = refl;
          root = refl;
          source_files = refl;
          symbols_by_name = by_name;
          sources_by_address = by_address;
          records_kept = refl;
        },
      )
