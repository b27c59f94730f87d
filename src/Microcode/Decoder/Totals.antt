-- ===== src/Microcode/Decoder/Totals.antt =====
-- The dumps of microcode/src/debug/decoder.cpp throw no error on a table of a compiled program's keys.
use irata.Prelude.{
  ℕ, ◌<◌, ◌≡◌, refl, sym, subst, Bool, Bool-cases, inl, inr, All, List, [], ◌∷◌, some, ok, err,
  ◌>>=◌, ◌==◌, null, if_both, arith,
}
use irata.Prelude.Maps.{find_key}
use irata.Microcode.Encoder.{MicrocodeKey, encode_key, decode_key}
use irata.Microcode.Encoder.Keys.{encode_key-decode_key}
use irata.Microcode.Decoder.{
  MicrocodeProgram, Dumped, decode_control_word, Format, Table, text_format, yaml_format,
  yaml_instruction_format, keys_of, keys_of_opcode, opcode_before, status_before, insert, sort,
  controls_of, dump_statuses, dump_opcodes, dump_program, dump_program_yaml, dump_instruction,
  dump_instruction_yaml,
}

-- A result that is no error.
abbrev pub Made : {A : Type 0} → Dumped A → Type 0
Made {A} result = (value : A) × (result ≡ ok value)

>>=-Made :
    {A B : Type 0} (call : Dumped A) (following : A → Dumped B)
    → Made call
    → ((value : A) → Made (following value))
    → Made (call >>= following)
>>=-Made (err thrown) following (value, e) h = cc
>>=-Made (ok value) following m h = h value

-- A key that the table has.
abbrev IsThere : Table → MicrocodeKey → Type 0
IsThere table key = (word : ℕ) × (find_key (λ (x y : ℕ). x == y) (encode_key key) table ≡ some word)

insert-All :
    (P : MicrocodeKey → Type 0) (before : MicrocodeKey → MicrocodeKey → Bool) (key : MicrocodeKey)
    (ks : List MicrocodeKey)
    → P key
    → All P ks
    → All P (insert before key ks)
unfolding insert
insert-All P before key [] p h = (p, tt)
insert-All P before key (k ∷ ks) p h =
    if_both (All P) (before k key) (h.0, insert-All P before key ks p h.1) (p, h)

sort-All :
    (P : MicrocodeKey → Type 0) (before : MicrocodeKey → MicrocodeKey → Bool)
    (ks : List MicrocodeKey)
    → All P ks
    → All P (sort before ks)
unfolding sort
sort-All P before [] h = tt
sort-All P before (k ∷ ks) h = insert-All P before k (sort before ks) h.0 (sort-All P before ks h.1)

find-later :
    (k : ℕ) (e : ℕ × ℕ) (es : Table)
    → ((word : ℕ) × (find_key (λ (x y : ℕ). x == y) k es ≡ some word))
    → (word : ℕ) × (find_key (λ (x y : ℕ). x == y) k (e ∷ es) ≡ some word)
find-later k e es (word, found) = elim (Bool-cases (e.0 == k)) [
  | inl same ↦ (e.1, rw same refl)
  | inr other ↦ (word, rw other found)
]

find-first :
    (e : ℕ × ℕ) (es : Table)
    → (word : ℕ) × (find_key (λ (x y : ℕ). x == y) e.0 (e ∷ es) ≡ some word)
find-first e es = (e.1, ground arith)

All-implies :
    {P Q : MicrocodeKey → Type 0} (ks : List MicrocodeKey)
    → ((k : MicrocodeKey) → P k → Q k)
    → All P ks
    → All Q ks
All-implies [] f h = tt
All-implies (k ∷ ks) f h = (f k h.0, All-implies ks f h.1)

-- The key of an entry is in its table.
entry-IsThere : (e : ℕ × ℕ) (es : Table) → e.0 < 16777216 → IsThere (e ∷ es) (decode_key e.0)
entry-IsThere e es small =
    subst (λ k. (word : ℕ) × (find_key (λ (x y : ℕ). x == y) k (e ∷ es) ≡ some word))
      (sym (encode_key-decode_key e.0 small)) (find-first e es)

-- The keys of a table that was compiled are below 2 ^ 24.
abbrev pub IsCompiled : Table → Type 0
IsCompiled table = All (λ e. e.0 < 16777216) table

keys_of-IsThere : (table : Table) → IsCompiled table → All (IsThere table) (keys_of table)
unfolding keys_of
keys_of-IsThere [] h = tt
keys_of-IsThere (e ∷ es) h = (
  entry-IsThere e es h.0,
  All-implies (keys_of es) (λ k. find-later (encode_key k) e es) (keys_of-IsThere es h.1),
)

keys_of_opcode-IsThere :
    (opcode : ℕ) (table : Table)
    → IsCompiled table
    → All (IsThere table) (keys_of_opcode opcode table)
unfolding keys_of_opcode
keys_of_opcode-IsThere opcode [] h = tt
keys_of_opcode-IsThere opcode (e ∷ es) h =
    let rest =
      All-implies (keys_of_opcode opcode es) (λ k. find-later (encode_key k) e es)
        (keys_of_opcode-IsThere opcode es h.1) in
    if_both (All (IsThere (e ∷ es))) ((decode_key e.0).opcode == opcode)
      (entry-IsThere e es h.0, rest) rest

module _ (program : MicrocodeProgram) (format : Format) where
  controls_of-Made :
      (key : MicrocodeKey) → IsThere program.table key → Made (controls_of program format key)
  unfolding controls_of
  controls_of-Made key (word, found) =
      (decode_control_word 0 program.control_paths word, rw (controls_of, found) refl)

  dump_statuses-Made :
      (current : ℕ) (keys : List MicrocodeKey)
      → All (IsThere program.table) keys
      → Made (dump_statuses program format current keys)
  unfolding dump_statuses
  dump_statuses-Made current [] h = ([], refl)
  dump_statuses-Made current (key ∷ keys) h =
      >>=-Made _ _ (controls_of-Made key h.0)
        (λ controls. >>=-Made _ _ (dump_statuses-Made key.status keys h.1) (λ later. (_, refl)))

  dump_opcodes-Made :
      (opcode current : ℕ) (keys : List MicrocodeKey)
      → All (IsThere program.table) keys
      → Made (dump_opcodes program format opcode current keys)
  unfolding dump_opcodes
  dump_opcodes-Made opcode current [] h = ([], refl)
  dump_opcodes-Made opcode current (key ∷ keys) h =
      >>=-Made _ _ (controls_of-Made key h.0) (λ controls.
        >>=-Made _ _ (dump_opcodes-Made key.opcode key.status keys h.1) (λ later. (_, refl)))

-- Every dump is written: when the keys of the table are below 2 ^ 24, as encoded keys are, none of the
-- four dumps looks up a key that is not there, for any opcode.
pub dumps-Made :
    (program : MicrocodeProgram) (opcode : ℕ)
    → IsCompiled program.table
    → Made (dump_program program)
      × Made (dump_instruction program opcode)
      × Made (dump_program_yaml program)
      × Made (dump_instruction_yaml program opcode)
unfolding dump_program dump_instruction dump_program_yaml dump_instruction_yaml
dumps-Made program opcode h =
    let all = sort-All _ opcode_before _ (keys_of-IsThere program.table h) in
    let one = sort-All _ status_before _ (keys_of_opcode-IsThere opcode program.table h) in
    (
      dump_opcodes-Made program text_format 255 255 _ all,
      if_both Made (null (keys_of_opcode opcode program.table)) (_, refl)
          (>>=-Made _ _ (dump_statuses-Made program text_format 255 _ one) (λ lines. (_, refl))),
      if_both Made (null (keys_of program.table)) (_, refl)
          (>>=-Made _ _ (dump_opcodes-Made program yaml_format 255 255 _ all) (λ lines. (_, refl))),
      if_both Made (null (keys_of_opcode opcode program.table)) (_, refl)
          (>>=-Made _ _ (dump_statuses-Made program yaml_instruction_format 255 _ one)
            (λ lines. (_, refl))),
    )
