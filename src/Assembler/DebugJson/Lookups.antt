-- ===== src/Assembler/DebugJson/Lookups.antt =====
-- The maps of the debug file: the symbols by name and the sources by address, as the loader keeps
-- them. assembler/src/cartridge.cpp and sim/src/debug_symbols.cpp.
use irata.Prelude.{
  Text, same_text, same_text-eq, same_text_self, less_text, ℕ, ◌<◌, ◌≡◌, refl, sym, ap, ◌∙◌, subst,
  inl, inr, Bool, true, false, ◌==◌, ==→eq, Bool-cases, Option, none, some, List, [], ◌∷◌, map, ok,
  err, ◌>>=◌, if◌then◌else◌, All, ltb, arith,
}
use irata.Prelude.Digits.{scan}
use irata.Prelude.Maps.{
  find_key, add_key, emplace_keys, find-emplace_keys, emplace_keys-IsDistinct, emplace_keys-All,
  IsDistinct, or_else, or_else_none,
}
use irata.Prelude.Maps.Keys.{
  renamed, less_by, map_option, emplace_keys-renamed, add_keys, find-add_keys,
}
use irata.Sim.Json.{JsonValue, string}
use irata.Sim.DebugSymbols.{
  SourceLocation, Loaded, parse_hex_word, load_symbols, insert_source, load_sources,
  duplicate_address,
}
use irata.Assembler.DebugJson.{DebugRecord, entries_of, sorted_symbols, pc_entries}
use irata.Assembler.DebugJson.Values.{address_text, scan-written, parse_hex_word-address_text}
use irata.Assembler.DebugJson.Records.{IsRecord, location_of, location_json}
use irata.Assembler.DebugJson.Loads.{load_location-location_json}

address_text_injective : (a b : ℕ) → address_text a ≡ address_text b → a ≡ b
address_text_injective a b h =
    ap (λ (p : ℕ × Text). p.0)
      (sym (scan-written 16 a (omega arith) (omega arith))
        ∙ ap (λ (s : Text). scan 16 0 (digits s)) h
        ∙ scan-written 16 b (omega arith) (omega arith))
  where
    digits : Text → Text
    digits (c ∷ d ∷ s) = s
    digits s = s

same_text-address_text : (a b : ℕ) → same_text (address_text a) (address_text b) ≡ (a == b)
same_text-address_text a b = elim (Bool-cases (a == b)) [
  | inl same ↦
      ap (λ (x : ℕ). same_text (address_text a) (address_text x)) (sym (==→eq a b same))
      ∙ same_text_self (address_text a)
      ∙ sym same
  | inr different ↦ elim (Bool-cases (same_text (address_text a) (address_text b))) [
    | inl same ↦
        let equal : a ≡ b =
          address_text_injective a b (same_text-eq (address_text a) (address_text b) same) in
        ground (arith, equal, different)
    | inr other ↦ other ∙ sym different
  ]
]

-- A symbol as a member.
abbrev pub symbol_json : ℕ → JsonValue
symbol_json w = string (address_text w)

abbrev pub IsSmall : Text × ℕ → Type 0
IsSmall e = e.1 < 65536

load_symbols-renamed :
    (es found : List (Text × ℕ))
    → All IsSmall es
    → load_symbols (map (renamed (λ name. name) symbol_json) es) found
      ≡ ok (add_keys same_text es found)
unfolding load_symbols add_keys
load_symbols-renamed [] found h = refl
load_symbols-renamed (e ∷ es) found h =
    ap
      (λ (word : Loaded ℕ). word >>= λ w.
        load_symbols (map (renamed (λ name. name) symbol_json) es) (add_key same_text e.0 w found))
      (parse_hex_word-address_text e.1 h.0)
    ∙ load_symbols-renamed es (add_key same_text e.0 e.1 found) h.1

-- The sorted symbols, as the members of the object that is parsed.
unfoldable pub symbol_members : List (Text × ℕ) → List (Text × JsonValue)
unfolding emplace_keys
symbol_members symbols =
    emplace_keys same_text less_text
      (map (renamed (λ name. name) symbol_json) (sorted_symbols symbols)) []

pub load_symbols-symbol_members :
    (symbols : List (Text × ℕ))
    → All IsSmall symbols
    → (loaded : List (Text × ℕ)) × (load_symbols (symbol_members symbols) [] ≡ ok loaded)
      × ((name : Text) → find_key same_text name loaded ≡ find_key same_text name symbols)
unfolding symbol_members sorted_symbols
load_symbols-symbol_members symbols h =
    let sorted = emplace_keys same_text less_text symbols [] in
    let again = emplace_keys same_text less_text sorted [] in
    let small = emplace_keys-All same_text less_text same_text-eq IsSmall symbols [] tt h in
    let small_again =
      emplace_keys-All same_text less_text same_text-eq IsSmall sorted [] tt small in
    (
      add_keys same_text again [],
      ap (λ (es : List (Text × JsonValue)). load_symbols es [])
            (emplace_keys-renamed same_text less_text same_text (λ name. name) (λ a b. refl)
              symbol_json sorted [])
          ∙ load_symbols-renamed again [] small_again,
      λ name.
          find-add_keys same_text same_text-eq name again []
          ∙ find-emplace_keys same_text less_text same_text-eq name sorted []
          ∙ find-emplace_keys same_text less_text same_text-eq name symbols [],
    )

abbrev pub equal_ℕ : ℕ → ℕ → Bool
equal_ℕ a b = a == b

-- An entry of the sources under its record's address.
abbrev pub IsSource : ℕ → ℕ × DebugRecord → Type 0
IsSource rom_size e = (e.0 < 65536) × IsRecord rom_size e.1

-- What the emplacement of a source does with the one that is found.
abbrev inserted_source :
    ℕ
    → SourceLocation
    → List (ℕ × SourceLocation)
    → Option SourceLocation
    → Loaded (List (ℕ × SourceLocation))
inserted_source address location found there = elim there [
  | some other ↦ err duplicate_address
  | none ↦ ok ((address, location) ∷ found)
]

still_apart :
    (a : ℕ) (l : SourceLocation) (es : List (ℕ × DebugRecord)) (found : List (ℕ × SourceLocation))
    → find_key equal_ℕ a es ≡ none
    → All (λ (e : ℕ × DebugRecord). find_key equal_ℕ e.0 found ≡ none) es
    → All (λ (e : ℕ × DebugRecord). find_key equal_ℕ e.0 ((a, l) ∷ found) ≡ none) es
still_apart a l [] found h apart = tt
still_apart a l (e ∷ es) found h apart =
    (at (e.0 == a) e.1 refl h, still_apart a l es found (behind (e.0 == a) e.1 h) apart.1)
  where
    behind :
        (b : Bool) (r : DebugRecord)
        → (if b then some r else find_key equal_ℕ a es) ≡ none
        → find_key equal_ℕ a es ≡ none
    behind true r h = cc
    behind false r h = h

    at :
        (b : Bool) (r : DebugRecord)
        → (e.0 == a) ≡ b
        → (if b then some r else find_key equal_ℕ a es) ≡ none
        → (if a == e.0 then some l else find_key equal_ℕ e.0 found) ≡ none
    at true r same h = cc
    at false r other h =
        let other' : (a == e.0) ≡ false = ground (arith, other) in rw other' (apart.0)

-- The loop over the sources, on members that stand for different addresses not loaded before.
load_sources-renamed :
    (rom_size : ℕ) (es : List (ℕ × DebugRecord)) (found : List (ℕ × SourceLocation))
    → All (IsSource rom_size) es
    → IsDistinct equal_ℕ ltb ==→eq es
    → All (λ (e : ℕ × DebugRecord). find_key equal_ℕ e.0 found ≡ none) es
    → (loaded : List (ℕ × SourceLocation)) × (load_sources
          (map (renamed address_text location_json) es)
          found
        ≡ ok loaded)
      × ((a : ℕ)
          → find_key equal_ℕ a loaded
            ≡ or_else (find_key equal_ℕ a found) (map_option location_of (find_key equal_ℕ a es)))
unfolding load_sources
load_sources-renamed rom_size [] found h d apart =
    (found, refl, λ a. sym (or_else_none (find_key equal_ℕ a found)))
load_sources-renamed rom_size (e ∷ es) found h d apart =
    let here = location_of e.1 in
    let later = map (renamed address_text location_json) es in
    let (loaded, read, looked) =
      load_sources-renamed rom_size es ((e.0, here) ∷ found) h.1 d.1
        (still_apart e.0 here es found d.0 apart.1) in
    (
      loaded,
      ap
            (λ (l : Loaded SourceLocation). l >>= λ location.
              parse_hex_word (address_text e.0) >>= λ address.
              insert_source address location found >>= λ inserted. load_sources later inserted)
            (load_location-location_json rom_size e.1 h.0.1)
          ∙ ap
              (λ (w : Loaded ℕ). w >>= λ address.
                insert_source address here found >>= λ inserted. load_sources later inserted)
              (parse_hex_word-address_text e.0 h.0.0)
          ∙ ap
              (λ (o : Option SourceLocation).
                inserted_source e.0 here found o >>= λ inserted. load_sources later inserted)
              apart.0
          ∙ read,
      λ a.
          looked a
          ∙ at a (e.0 == a) (λ same.
            subst (λ (x : ℕ). find_key equal_ℕ x found ≡ none) (==→eq e.0 a same) apart.0),
    )
  where
    at :
        (a : ℕ) (b : Bool)
        → (b ≡ true → find_key equal_ℕ a found ≡ none)
        → or_else
            (if b then some (location_of e.1) else find_key equal_ℕ a found)
            (map_option location_of (find_key equal_ℕ a es))
          ≡ or_else
              (find_key equal_ℕ a found)
              (map_option location_of (if b then some e.1 else find_key equal_ℕ a es))
    at a true absent = rw (absent refl) refl
    at a false absent = refl

pub entries_of-IsSource :
    (rom_size : ℕ) (records : List DebugRecord)
    → All (IsRecord rom_size) records
    → All (IsSource rom_size) (entries_of records)
entries_of-IsSource rom_size [] h = tt
entries_of-IsSource rom_size (r ∷ rs) h =
    ((h.0.address_small, h.0), entries_of-IsSource rom_size rs h.1)

-- The sources by address, as the members of the object that is parsed.
unfoldable pub source_members : List DebugRecord → List (Text × JsonValue)
unfolding emplace_keys
source_members records =
    emplace_keys same_text less_text (map (renamed address_text location_json) (pc_entries records))
      []

none_apart :
    (es : List (ℕ × DebugRecord))
    → All (λ (e : ℕ × DebugRecord). find_key {V = SourceLocation} equal_ℕ e.0 [] ≡ none) es
none_apart [] = tt
none_apart (e ∷ es) = (refl, none_apart es)

pub load_sources-source_members :
    (rom_size : ℕ) (records : List DebugRecord)
    → All (IsRecord rom_size) records
    → (loaded : List (ℕ × SourceLocation)) × (load_sources (source_members records) [] ≡ ok loaded)
      × ((a : ℕ)
          → find_key equal_ℕ a loaded
            ≡ map_option location_of (find_key equal_ℕ a (entries_of records)))
unfolding source_members pc_entries
load_sources-source_members rom_size records h =
    let less = less_by less_text address_text in
    let entries = entries_of records in
    let by_number = emplace_keys equal_ℕ ltb entries [] in
    let by_text = emplace_keys equal_ℕ less by_number [] in
    let all = entries_of-IsSource rom_size records h in
    let all_sorted = emplace_keys-All equal_ℕ ltb ==→eq (IsSource rom_size) entries [] tt all in
    let all_again =
      emplace_keys-All equal_ℕ less ==→eq (IsSource rom_size) by_number [] tt all_sorted in
    let distinct = emplace_keys-IsDistinct equal_ℕ less ==→eq by_number [] tt in
    let (loaded, read, looked) =
      load_sources-renamed rom_size by_text [] all_again distinct (none_apart by_text) in
    (
      loaded,
      ap (λ (es : List (Text × JsonValue)). load_sources es [])
            (emplace_keys-renamed same_text less_text equal_ℕ address_text same_text-address_text
              location_json by_number [])
          ∙ read,
      λ a.
          looked a
          ∙ ap (map_option location_of) (
              find-emplace_keys equal_ℕ less ==→eq a by_number []
              ∙ find-emplace_keys equal_ℕ ltb ==→eq a entries []),
    )
