-- ===== src/Assembler/DebugJson/Parts.antt =====
-- The lists of the debug file, as the JSON parser reads them: assembler/src/cartridge.cpp and
-- sim/src/debug_symbols.cpp.
use irata.Prelude.{
  Text, same_text, less_text, ℕ, zero, suc, ◌^◌, ◌≤◌, ◌<◌, ◌≡◌, refl, ap, ◌∙◌, List, [], ◌∷◌, map,
  length, ok, All, arith,
}
use irata.Prelude.Maps.{emplace_keys}
use irata.Prelude.Maps.Keys.{renamed}
use irata.Sim.Json.{
  JsonValue, array, string, items_of, map_value, with_item, skip_whitespace, parse_string, start_of,
  parse_object, parse_array, parse_items, parse_members, parse_member, parse_value,
}
use irata.Assembler.DebugJson.{
  DebugRecord, write_string, write_lines, write_files, write_symbol, write_symbols, write_source,
  write_record, write_address,
}
use irata.Assembler.DebugJson.Values.{address_text, parse_value-write_string}
use irata.Assembler.DebugJson.Objects.{
  parse_items-next, parse_items-last, parse_items-write_lines, parse_members-write_lines,
}
use irata.Assembler.DebugJson.Records.{
  IsRecord, object_of, record_json, location_json, parse_value-write_record,
  parse_member-write_source, parse_member-write_symbol,
}
use irata.Assembler.DebugJson.Lookups.{symbol_json}

abbrev pub array_of : List JsonValue → JsonValue
array_of vs = array (items_of vs)

-- Enough fuel for a record inside the list.
abbrev pub seven : ℕ → ℕ
seven n = suc (suc (suc (suc (suc (suc (suc n))))))

-- Enough fuel for the members of the file.
abbrev pub nine : ℕ → ℕ
nine n = suc (suc (seven n))

parse_items-write_files :
    (n fuel : ℕ) (f : Text) (fs : List Text) (more : Text)
    → length fs < fuel
    → parse_items fuel (parse_value (suc n)) (write_files (f ∷ fs) (b']' ∷ more))
      ≡ ok (map string (f ∷ fs), more)
unfolding write_files skip_whitespace parse_items parse_value
parse_items-write_files n zero f fs more h = absurd (omega arith)
parse_items-write_files n (suc fuel) f [] more h =
    parse_items-last (parse_value (suc n)) fuel (write_string f (b']' ∷ more))
      (parse_value-write_string n f (b']' ∷ more)) refl
parse_items-write_files n (suc fuel) f (g ∷ fs) more h =
    let later = write_files (g ∷ fs) (b']' ∷ more) in
    parse_items-next (parse_value (suc n)) fuel (write_string f (b',' ∷ b' ' ∷ later))
      (parse_value-write_string n f (b',' ∷ b' ' ∷ later))
    ∙ ap (with_item (string f))
        (skip_space fuel later ∙ parse_items-write_files n fuel g fs more (omega (arith, h)))
  where
    skip_space :
        (m : ℕ) (s : Text)
        → parse_items m (parse_value (suc n)) (b' ' ∷ s) ≡ parse_items m (parse_value (suc n)) s
    skip_space zero s = refl
    skip_space (suc m) s = refl

pub parse_value-write_files :
    (n : ℕ) (files : List Text) (more : Text)
    → length files ≤ n
    → parse_value (suc (suc n)) (b' ' ∷ b'[' ∷ write_files files (b']' ∷ more))
      ≡ ok (array_of (map string files), more)
unfolding parse_value start_of parse_array skip_whitespace write_files write_string
parse_value-write_files n [] more h = refl
parse_value-write_files n (f ∷ fs) more h =
    ap (map_value array_of) (parse_items-write_files n (suc n) f fs more (omega (arith, h)))

pub parse_value-write_records :
    (n rom_size : ℕ) (records : List DebugRecord) (more : Text)
    → rom_size < 2 ^ 32
    → All (IsRecord rom_size) records
    → length records ≤ n
    → parse_value
        (suc (seven n))
        (b' ' ∷ b'[' ∷ b'\n' ∷ write_lines write_record records (b' ' ∷ b' ' ∷ b']' ∷ more))
      ≡ ok (array_of (map record_json records), more)
unfolding parse_value start_of parse_array parse_items skip_whitespace write_lines write_record
parse_value-write_records n rom_size [] more size all h = refl
parse_value-write_records n rom_size (r ∷ rs) more size all h = ap (map_value array_of) (
    parse_items-write_lines (parse_value (seven n)) (seven n) write_record record_json
      (IsRecord rom_size) r rs (b' ' ∷ b' ' ∷ b']' ∷ more) more
      (λ b s good. parse_value-write_record n rom_size b s size good) (λ s. refl) refl all
      (omega (arith, h)))

-- The line and the column of a source.
abbrev pub IsPlaced : ℕ × DebugRecord → Type 0
IsPlaced e = (e.1.line < 2 ^ 31) × (e.1.column < 2 ^ 31)

pub parse_value-write_sources :
    (n : ℕ) (es : List (ℕ × DebugRecord)) (more : Text)
    → All IsPlaced es
    → length es ≤ n
    → parse_value
        (suc (seven n))
        (b' ' ∷ b'{' ∷ b'\n' ∷ write_lines write_source es (b' ' ∷ b' ' ∷ b'}' ∷ more))
      ≡ ok (
        object_of
            (emplace_keys same_text less_text (map (renamed address_text location_json) es) []),
        more,
      )
unfolding parse_value start_of parse_object parse_members parse_member parse_string skip_whitespace
    write_lines write_source write_address emplace_keys
parse_value-write_sources n [] more all h = refl
parse_value-write_sources n (e ∷ es) more all h = ap (map_value object_of) (
    parse_members-write_lines (parse_value (seven n)) (seven n) write_source
      (renamed address_text location_json) IsPlaced e es (b' ' ∷ b' ' ∷ b'}' ∷ more) more []
      (λ b s good. parse_member-write_source (suc (suc n)) b.0 b.1 s good.0 good.1) refl all
      (omega (arith, h)))

pub parse_value-write_symbols :
    (n : ℕ) (es : List (Text × ℕ)) (more : Text)
    → length es ≤ n
    → parse_value (suc (seven n)) (b' ' ∷ b'{' ∷ write_symbols es (b'}' ∷ more))
      ≡ ok (
        object_of
            (emplace_keys same_text less_text (map (renamed (λ name. name) symbol_json) es) []),
        more,
      )
unfolding parse_value start_of parse_object parse_members parse_member parse_string skip_whitespace
    write_lines write_symbols write_symbol write_string emplace_keys
parse_value-write_symbols n [] more h = refl
parse_value-write_symbols n (e ∷ es) more h = ap (map_value object_of) (
    parse_members-write_lines (parse_value (seven n)) (seven n) write_symbol
      (renamed (λ name. name) symbol_json) (λ b. Unit {0}) e es (b' ' ∷ b' ' ∷ b'}' ∷ more) more []
      (λ b s good. parse_member-write_symbol (suc (suc (suc (suc (suc (suc n)))))) b s) refl
      (all_unit (e ∷ es)) (omega (arith, h)))
  where
    all_unit : (xs : List (Text × ℕ)) → All (λ b. Unit {0}) xs
    all_unit [] = tt
    all_unit (x ∷ xs) = (tt, all_unit xs)
