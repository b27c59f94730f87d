-- ===== src/Tests/DebugInfo.antt =====
-- The debug file of a small program.
use irata.Prelude.{Text, codes, ℕ, ◌≡◌, refl, List, [], ◌∷◌, ok, err, ◌≢◌, arith}
use irata.Prelude.Int.{pos}
use irata.Cartridge.{default_header}
use irata.Assembler.DebugJson.{DebugRecord, encode_debug_json}
use irata.Assembler.DebugJson.Loaded.{IsDebugInfo, Describes, load_debug_symbols-encode_debug_json}
use irata.Sim.Json.{out_of_fuel, parse}
use irata.Sim.Json.Ends.{parse-Stops}
use irata.Sim.DebugSymbols.{DebugSymbols, load_debug_symbols}

abbrev symbols : List (Text × ℕ)
symbols = (codes "start", 0x8000) ∷ (codes "a", 0x10) ∷ []

abbrev records : List DebugRecord
records =
    record {
      address = 0x8000;
      rom_offset = 0;
      file = codes "a.asm";
      line = 1;
      column = 2;
      text = codes "LDA \"x\"";
    }
    ∷ record {
      address = 0x8002;
      rom_offset = 2;
      file = codes "a.asm";
      line = 12;
      column = 2;
      text = codes "\tRTS";
    }
    ∷ []

debug_json_loaded :
    load_debug_symbols (
      encode_debug_json
        (default_header 0x8000 32)
        (codes "v1")
        (codes ".")
        (codes "a.asm" ∷ [])
        symbols
        records)
    ≡ ok (record {
      version = codes "v1";
      entry = 0x8000;
      rom_size = 32;
      cartridge_version = 1;
      source_root = codes ".";
      source_files = codes "a.asm" ∷ [];
      symbols = (codes "start", 0x8000) ∷ (codes "a", 0x10) ∷ [];
      pc_to_source =
          (
            0x8002,
            record { file = codes "a.asm"; line = pos 12; column = pos 2; text = codes "\tRTS" },
          )
          ∷ (
            0x8000,
            record { file = codes "a.asm"; line = pos 1; column = pos 2; text = codes "LDA \"x\"" },
          )
          ∷ [];
      records =
          record {
            address = 0x8000;
            rom_offset = 0;
            location = record {
              file = codes "a.asm";
              line = pos 1;
              column = pos 2;
              text = codes "LDA \"x\"";
            };
          }
          ∷ record {
            address = 0x8002;
            rom_offset = 2;
            location = record {
              file = codes "a.asm";
              line = pos 12;
              column = pos 2;
              text = codes "\tRTS";
            };
          }
          ∷ [];
    })
unfolding load_debug_symbols encode_debug_json default_header
debug_json_loaded = refl

debug_info :
    IsDebugInfo
      (default_header 0x8000 32)
      (codes "v1")
      (codes ".")
      (codes "a.asm" ∷ [])
      symbols
      records
unfolding default_header
debug_info = record {
  version_small = omega arith;
  entry_small = omega arith;
  rom_positive = omega arith;
  rom_small = omega arith;
  symbols_small = omega arith;
  all_records = (
    record {
      address_small = omega arith;
      offset_inside = omega arith;
      line_positive = omega arith;
      line_small = omega arith;
      column_positive = omega arith;
      column_small = omega arith;
    },
    (
      record {
        address_small = omega arith;
        offset_inside = omega arith;
        line_positive = omega arith;
        line_small = omega arith;
        column_positive = omega arith;
        column_small = omega arith;
      },
      tt,
    ),
  );
}

debug_info_example :
    (d : DebugSymbols) × (load_debug_symbols (
        encode_debug_json
          (default_header 0x8000 32)
          (codes "v1")
          (codes ".")
          (codes "a.asm" ∷ [])
          symbols
          records)
      ≡ ok d)
    × Describes
        (default_header 0x8000 32)
        (codes "v1")
        (codes ".")
        (codes "a.asm" ∷ [])
        symbols
        records
        d
debug_info_example =
    load_debug_symbols-encode_debug_json (default_header 0x8000 32) (codes "v1") (codes ".")
      (codes "a.asm" ∷ []) symbols records debug_info

json_example : parse (codes "{\"a\": [1, -2]") ≢ err out_of_fuel
json_example = parse-Stops (codes "{\"a\": [1, -2]")
