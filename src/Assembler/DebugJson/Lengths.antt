-- ===== src/Assembler/DebugJson/Lengths.antt =====
-- How long the debug file is: its parts of assembler/src/cartridge.cpp leave enough characters for the
-- rounds of the JSON parser.
use irata.Prelude.{
  Text, codes, ℕ, suc, ◌+◌, ◌≤◌, List, [], ◌∷◌, length, length-append, null, ltb, ◌==◌, if_both, ap,
  arith,
}
use irata.Prelude.Digits.{write_number, write_number-append}
use irata.Assembler.DebugJson.{
  DebugRecord, write, escape_char, escape_json, write_string, write_decimal, write_address,
  write_lines, write_files, write_symbol, write_location, write_source, write_record, write_symbols,
}

write_number-length : (base n : ℕ) (out : Text) → length out ≤ length (write_number base n out)
write_number-length base n out = omega (
  arith,
  ap (λ (s : Text). length s) (write_number-append base n out),
  length-append (write_number base n []) out,
)

escape_char-length : (c : ℕ) (out : Text) → length out ≤ length (escape_char c out)
escape_char-length c out = if_both Longer (c == b'"') (omega arith) (
    if_both Longer (c == b'\\') (omega arith) (
      if_both Longer (c == b'\n') (omega arith) (
        if_both Longer (c == b'\r') (omega arith) (
          if_both Longer (c == b'\t') (omega arith)
            (if_both Longer (ltb c 0x20) (omega arith) (omega arith))))))
  where
    Longer : Text → Type 0
    Longer s = length out ≤ length s

escape_json-length : (s out : Text) → length out ≤ length (escape_json s out)
unfolding escape_json
escape_json-length [] out = omega arith
escape_json-length (c ∷ cs) out =
    omega (arith, escape_char-length c (escape_json cs out), escape_json-length cs out)

pub write_string-length : (s out : Text) → length out + 2 ≤ length (write_string s out)
unfolding write_string
write_string-length s out = omega (arith, escape_json-length s (b'"' ∷ out))

pub write_decimal-length : (n : ℕ) (out : Text) → length out ≤ length (write_decimal n out)
unfolding write_decimal
write_decimal-length n out = write_number-length 10 n out

pub write_address-length : (w : ℕ) (out : Text) → length out ≤ length (write_address w out)
unfolding write_address
write_address-length w out = omega (arith, write_number-length 16 w (b'"' ∷ out))

pub write_lines-length :
    {A : Type 0} (line : A → Text → Text) (items : List A) (out : Text)
    → ((a : A) (s : Text) → length s ≤ length (line a s))
    → length items + length out ≤ length (write_lines line items out)
unfolding write_lines
write_lines-length line [] out h = omega arith
write_lines-length line (a ∷ others) out h =
    let later = write_lines line others out in
    if_both (λ (s : Text). suc (length others) + length out ≤ length (line a s)) (null others)
      (omega (arith, h a (b'\n' ∷ later), write_lines-length line others out h))
      (omega (arith, h a (b',' ∷ b'\n' ∷ later), write_lines-length line others out h))

pub write_files-length :
    (files : List Text) (out : Text) → length files + length out ≤ length (write_files files out)
unfolding write_files
write_files-length [] out = omega arith
write_files-length (f ∷ fs) out =
    let later = write_files fs out in
    if_both (λ (s : Text). suc (length fs) + length out ≤ length (write_string f s)) (null fs)
      (omega (arith, write_string-length f later, write_files-length fs out))
      (omega (arith, write_string-length f (b',' ∷ b' ' ∷ later), write_files-length fs out))

write_location-length : (r : DebugRecord) (out : Text) → length out ≤ length (write_location r out)
unfolding write_location
write_location-length r out =
    let text = write_string r.text (b'}' ∷ out) in
    let column = write_decimal r.column (write (codes ", \"text\": ") text) in
    let line = write_decimal r.line (write (codes ", \"column\": ") column) in
    omega (
      arith,
      write_string-length r.text (b'}' ∷ out),
      write_decimal-length r.column (write (codes ", \"text\": ") text),
      write_decimal-length r.line (write (codes ", \"column\": ") column),
      write_string-length r.file (write (codes ", \"line\": ") line),
    )

pub write_source-length :
    (e : ℕ × DebugRecord) (out : Text) → length out ≤ length (write_source e out)
unfolding write_source
write_source-length e out = omega (
  arith,
  write_location-length e.1 out,
  write_address-length e.0 (write (codes ": {") (write_location e.1 out)),
)

pub write_record-length : (r : DebugRecord) (out : Text) → length out ≤ length (write_record r out)
unfolding write_record
write_record-length r out =
    let location = write (codes ", ") (write_location r out) in
    let offset = write_decimal r.rom_offset location in
    omega (
      arith,
      write_location-length r out,
      write_decimal-length r.rom_offset location,
      write_address-length r.address (write (codes ", \"rom_offset\": ") offset),
    )

write_symbol-length : (e : Text × ℕ) (out : Text) → length out ≤ length (write_symbol e out)
unfolding write_symbol
write_symbol-length e out = omega (
  arith,
  write_address-length e.1 out,
  write_string-length e.0 (write (codes ": ") (write_address e.1 out)),
)

pub write_symbols-length :
    (es : List (Text × ℕ)) (out : Text) → length es + length out ≤ length (write_symbols es out)
unfolding write_symbols
write_symbols-length [] out = omega arith
write_symbols-length (e ∷ es) out =
    omega
      (arith, write_lines-length write_symbol (e ∷ es) (write (codes "  ") out) write_symbol-length)
