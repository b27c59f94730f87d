-- ===== src/Assembler/DebugJson/RoundTrip.antt =====
-- The debug file that the assembler writes and the simulator loads: assembler/src/cartridge.cpp and
-- sim/src/debug_symbols.cpp.
use irata.Prelude.{
  Text, codes, ℕ, suc, ◌%◌, ◌^◌, ◌≤◌, ◌<◌, ◌≡◌, refl, ap, ◌∙◌, false, List, [], ◌∷◌, map, length,
  ok, All, arith,
}
use irata.Prelude.Int.{pos, leb_ℤ, ltb_ℤ}
use irata.Cartridge.{CartridgeHeader}
use irata.Sim.Json.{
  members_of, entries_of, items_of, values_of, JsonValue, string, number, map_value,
  skip_whitespace, string_body, parse_string, parse_member, parse_object, parse_value, start_of,
}
use irata.Sim.DebugSymbols.{
  SourceLocation, to_u32, parse_strings, load_records, load_symbols, load_sources, load_root,
}
use irata.Assembler.DebugJson.{
  DebugRecord, write, write_string, write_decimal, write_address, write_files, write_symbols,
  sorted_symbols, write_lines, write_source, pc_entries, write_record, encode_debug_json,
}
use irata.Assembler.DebugJson.Values.{
  address_text, parse_hex_word-address_text, parse_value-write_string, parse_value-write_address,
  parse_value-write_decimal,
}
use irata.Assembler.DebugJson.Objects.{keyed, put, parse_members-next, parse_members-last}
use irata.Assembler.DebugJson.Records.{IsRecord, object_of, record_json}
use irata.Assembler.DebugJson.Loads.{
  record_of, entries_of-members_of, values_of-items_of, parse_strings-string,
  load_records-record_json,
}
use irata.Assembler.DebugJson.Lookups.{symbol_members, source_members}
use irata.Assembler.DebugJson.Parts.{
  nine, array_of, IsPlaced, parse_value-write_files, parse_value-write_symbols,
  parse_value-write_sources, parse_value-write_records,
}

module _ (header : CartridgeHeader) (schema source_root : Text) (files : List Text)
    (symbols : List (Text × ℕ)) (records : List DebugRecord) where
  -- The members of the debug file's object, in the parser's map.
  unfoldable pub root_members : List (Text × JsonValue)
  unfolding put symbol_members source_members
  root_members = put (codes "records") (array_of (map record_json records)) (
      put (codes "pc_to_source") (object_of (source_members records)) (
        put (codes "symbols") (object_of (symbol_members symbols)) (
          put (codes "source_files") (array_of (map string files)) (
            put (codes "source_root") (string source_root) (
              put (codes "rom_size") (number (pos header.rom_size)) (
                put (codes "entry") (string (address_text header.entry)) (
                  put (codes "cartridge_version") (number (pos header.version))
                    (put (codes "version") (string schema) []))))))))

  unfoldable pub json_text : Text
  unfolding encode_debug_json
  json_text = encode_debug_json header schema source_root files symbols records

  pub parse_value-encode_debug_json :
      (n : ℕ)
      → header.version < 2 ^ 16
      → header.rom_size < 2 ^ 32
      → All (IsRecord header.rom_size) records
      → All IsPlaced (pc_entries records)
      → length files ≤ n
      → length (sorted_symbols symbols) ≤ n
      → length (pc_entries records) ≤ n
      → length records ≤ n
      → parse_value (suc (nine n)) json_text ≡ ok (object_of root_members, b'\n' ∷ [])
  unfolding json_text encode_debug_json root_members parse_value start_of parse_object parse_member
      parse_string skip_whitespace string_body put symbol_members source_members
  parse_value-encode_debug_json n version size all placed files_n symbols_n sources_n records_n =
      let m = suc (suc (suc (suc (suc (suc (suc (suc n))))))) in
      let value = parse_value (suc m) in
      let s9 =
        write (codes "\n  \"records\": [\n")
          (write_lines write_record records (codes "  ]\n}\n")) in
      let x8 = write_lines write_source (pc_entries records) (write (codes "  },") s9) in
      let s8 = write (codes "\n  \"pc_to_source\": {\n") x8 in
      let x7 = write_symbols (sorted_symbols symbols) (write (codes "},") s8) in
      let s7 = write (codes "\n  \"symbols\": {") x7 in
      let x6 = write_files files (write (codes "],") s7) in
      let s6 = write (codes "\n  \"source_files\": [") x6 in
      let x5 = write_string source_root (b',' ∷ s6) in
      let s5 = write (codes "\n  \"source_root\": ") x5 in
      let x4 = write_decimal header.rom_size (b',' ∷ s5) in
      let s4 = write (codes "\n  \"rom_size\": ") x4 in
      let x3 = write_address header.entry (b',' ∷ s4) in
      let s3 = write (codes "\n  \"entry\": ") x3 in
      let x2 = write_decimal header.version (b',' ∷ s3) in
      let s2 = write (codes "\n  \"cartridge_version\": ") x2 in
      let x1 = write_string schema (b',' ∷ s2) in
      let m1 = put (codes "version") (string schema) [] in
      let m2 = put (codes "cartridge_version") (number (pos header.version)) m1 in
      let m3 = put (codes "entry") (string (address_text header.entry)) m2 in
      let m4 = put (codes "rom_size") (number (pos header.rom_size)) m3 in
      let m5 = put (codes "source_root") (string source_root) m4 in
      let m6 = put (codes "source_files") (array_of (map string files)) m5 in
      let m7 = put (codes "symbols") (object_of (symbol_members symbols)) m6 in
      let m8 = put (codes "pc_to_source") (object_of (source_members records)) m7 in
      ap (map_value object_of) (
        parse_members-next value (suc (suc (suc (suc (suc (suc (suc (suc n)))))))) []
          (write (codes "\"version\": ") x1)
          (ap (keyed (codes "version")) (parse_value-write_string m schema (b',' ∷ s2)))
        ∙ parse_members-next value (suc (suc (suc (suc (suc (suc (suc n))))))) m1 s2 (
            ap (keyed (codes "cartridge_version"))
              (parse_value-write_decimal m header.version b',' s3 (omega (arith, version)) refl))
        ∙ parse_members-next value (suc (suc (suc (suc (suc (suc n)))))) m2 s3
            (ap (keyed (codes "entry")) (parse_value-write_address m header.entry (b',' ∷ s4)))
        ∙ parse_members-next value (suc (suc (suc (suc (suc n))))) m3 s4 (
            ap (keyed (codes "rom_size"))
              (parse_value-write_decimal m header.rom_size b',' s5 (omega (arith, size)) refl))
        ∙ parse_members-next value (suc (suc (suc (suc n)))) m4 s5
            (ap (keyed (codes "source_root")) (parse_value-write_string m source_root (b',' ∷ s6)))
        ∙ parse_members-next value (suc (suc (suc n))) m5 s6 (
            ap (keyed (codes "source_files")) (
              parse_value-write_files (suc (suc (suc (suc (suc (suc (suc n))))))) files (b',' ∷ s7)
                (omega (arith, files_n))))
        ∙ parse_members-next value (suc (suc n)) m6 s7 (
            ap (keyed (codes "symbols")) (
              parse_value-write_symbols (suc n) (sorted_symbols symbols) (b',' ∷ s8)
                (omega (arith, symbols_n))))
        ∙ parse_members-next value (suc n) m7 s8 (
            ap (keyed (codes "pc_to_source")) (
              parse_value-write_sources (suc n) (pc_entries records) (b',' ∷ s9) placed
                (omega (arith, sources_n))))
        ∙ parse_members-last value n m8 s9
            (ap (keyed (codes "records")) (
              parse_value-write_records (suc n) header.rom_size records (codes "\n}\n") size all
                (omega (arith, records_n))))
            refl)

  -- What the loader makes of the members.
  pub load_root-root_members :
      header.entry < 65536
      → 1 ≤ header.rom_size
      → header.rom_size < 2 ^ 32
      → header.version < 2 ^ 16
      → (found_symbols : List (Text × ℕ))
      → load_symbols (symbol_members symbols) [] ≡ ok found_symbols
      → (found_sources : List (ℕ × SourceLocation))
      → load_sources (source_members records) [] ≡ ok found_sources
      → All (IsRecord header.rom_size) records
      → load_root (object_of root_members)
        ≡ ok (record {
          version = schema;
          entry = header.entry;
          rom_size = header.rom_size;
          cartridge_version = header.version;
          source_root = source_root;
          source_files = files;
          symbols = found_symbols;
          pc_to_source = found_sources;
          records = map record_of records;
        })
  unfolding load_root root_members put
  load_root-root_members entry positive size version found_symbols symbols_read found_sources
        sources_read all =
      let sized : leb_ℤ (pos header.rom_size) (pos 0) ≡ false = ground (arith, positive) in
      let versioned : ltb_ℤ (pos header.version) (pos 0) ≡ false = ground arith in
      let files_read : parse_strings (values_of (items_of (map string files))) ≡ ok files =
        ap parse_strings (values_of-items_of (map string files)) ∙ parse_strings-string files in
      let symbols_loaded : load_symbols (entries_of (members_of (symbol_members symbols))) []
          ≡ ok found_symbols =
        ap (λ (es : List (Text × JsonValue)). load_symbols es [])
          (entries_of-members_of (symbol_members symbols))
        ∙ symbols_read in
      let sources_loaded : load_sources (entries_of (members_of (source_members records))) []
          ≡ ok found_sources =
        ap (λ (es : List (Text × JsonValue)). load_sources es [])
          (entries_of-members_of (source_members records))
        ∙ sources_read in
      let rom_size_kept : to_u32 (pos header.rom_size) ≡ header.rom_size = omega (arith, size) in
      let version_kept : header.version % 2 ^ 32 ≡ header.version = omega (arith, version) in
      let records_loaded : load_records header.rom_size
            (values_of (items_of (map record_json records)))
          ≡ ok (map record_of records) =
        ap (load_records header.rom_size) (values_of-items_of (map record_json records))
        ∙ load_records-record_json header.rom_size records size all in
      rw (parse_hex_word-address_text header.entry entry) (
        rw sized (
          rw versioned (
            rw files_read (
              rw symbols_loaded
                (rw sources_loaded (rw (rom_size_kept, version_kept) (rw records_loaded refl)))))))
