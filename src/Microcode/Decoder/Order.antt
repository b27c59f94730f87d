-- ===== src/Microcode/Decoder/Order.antt =====
-- The dumps of microcode/src/debug/decoder.cpp and the order of the table, which is a hash table's.
use irata.Prelude.{
  ℕ, ◌≡◌, ◌≢◌, refl, sym, ap, ap₂, ◌∙◌, Bool, true, false, Bool-cases, inl, inr, List, [], ◌∷◌,
  ◌++◌, Option, none, some, not, err, ok, ◌>>=◌, Text, codes, if◌then◌else◌, ◌==◌, null, arith,
}
use irata.Prelude.Maps.{find_key}
use irata.Microcode.Encoder.{MicrocodeKey, encode_key, decode_key}
use irata.Microcode.Decoder.{
  MicrocodeProgram, Dumped, decode_status_bits, out_of_range, decode_control_word, status_line,
  Format, text_format, yaml_format, Table, keys_of, opcode_before, insert, sort, controls_of,
  dump_opcodes, dump_program, dump_program_yaml,
}

opcode_before_asym : (a b : MicrocodeKey) → opcode_before a b ≡ true → opcode_before b a ≡ false
opcode_before_asym a b h = ground (arith, h)

opcode_before_mixed :
    (a b k : MicrocodeKey)
    → opcode_before k a ≡ true
    → opcode_before k b ≡ false
    → opcode_before b a ≡ true
opcode_before_mixed a b k h g = ground (arith, h, g)

opcode_before_tied :
    (a b : MicrocodeKey) → opcode_before a b ≡ false → opcode_before b a ≡ false → a ≡ b
opcode_before_tied a b h g =
    let opcode : a.opcode ≡ b.opcode = ground (arith, h, g) in
    let status : a.status ≡ b.status = ground (arith, h, g) in
    let step : a.step ≡ b.step = ground (arith, h, g) in
    ap₂ (λ o (r : ℕ × ℕ). record { opcode = o; step = r.0; status = r.1 }) opcode
      (ap₂ (λ (p s : ℕ). (p, s)) step status)

-- Two keys in front of others, in either order.
insert_top :
    (a b : MicrocodeKey) (ks : List MicrocodeKey)
    → (if opcode_before b a then b ∷ a ∷ ks else a ∷ b ∷ ks)
      ≡ (if opcode_before a b then a ∷ b ∷ ks else b ∷ a ∷ ks)
insert_top a b ks = elim (Bool-cases (opcode_before a b)) [
  | inl ab ↦ rw (ab, opcode_before_asym a b ab) refl
  | inr not_ab ↦ elim (Bool-cases (opcode_before b a)) [
    | inl ba ↦ rw (not_ab, ba) refl
    | inr not_ba ↦
        rw (not_ab, not_ba)
          (ap₂ (λ (x y : MicrocodeKey). x ∷ y ∷ ks) (opcode_before_tied a b not_ab not_ba)
            (sym (opcode_before_tied a b not_ab not_ba)))
  ]
]

insert_past :
    (a k : MicrocodeKey) (ks : List MicrocodeKey)
    → opcode_before k a ≡ true
    → insert opcode_before a (k ∷ ks) ≡ k ∷ insert opcode_before a ks
unfolding insert
insert_past a k ks h = ap (λ (b : Bool). if b then k ∷ insert opcode_before a ks else a ∷ k ∷ ks) h

insert_here :
    (a k : MicrocodeKey) (ks : List MicrocodeKey)
    → opcode_before k a ≡ false
    → insert opcode_before a (k ∷ ks) ≡ a ∷ k ∷ ks
unfolding insert
insert_here a k ks h = ap (λ (b : Bool). if b then k ∷ insert opcode_before a ks else a ∷ k ∷ ks) h

-- One key that stands behind `k`, and one that does not.
insert_across :
    (a b k : MicrocodeKey) (ks : List MicrocodeKey)
    → opcode_before k a ≡ true
    → opcode_before k b ≡ false
    → insert opcode_before a (insert opcode_before b (k ∷ ks))
      ≡ insert opcode_before b (insert opcode_before a (k ∷ ks))
insert_across a b k ks ka kb =
    ap (insert opcode_before a) (insert_here b k ks kb)
    ∙ insert_past a b (k ∷ ks) (opcode_before_mixed a b k ka kb)
    ∙ ap (λ r. b ∷ r) (insert_past a k ks ka)
    ∙ sym (
        ap (insert opcode_before b) (insert_past a k ks ka)
        ∙ insert_here b k (insert opcode_before a ks) kb)

-- Two keys of which neither stands behind `k`.
insert_both :
    (a b k : MicrocodeKey) (ks : List MicrocodeKey)
    → opcode_before k a ≡ false
    → opcode_before k b ≡ false
    → insert opcode_before a (insert opcode_before b (k ∷ ks))
      ≡ (if opcode_before b a then b ∷ a ∷ k ∷ ks else a ∷ b ∷ k ∷ ks)
unfolding insert
insert_both a b k ks ka kb =
    ap (insert opcode_before a) (insert_here b k ks kb)
    ∙ ap (λ r. if opcode_before b a then b ∷ r else a ∷ b ∷ k ∷ ks) (insert_here a k ks ka)

insert_comm :
    (a b : MicrocodeKey) (ks : List MicrocodeKey)
    → insert opcode_before a (insert opcode_before b ks)
      ≡ insert opcode_before b (insert opcode_before a ks)
unfolding insert
insert_comm a b [] = insert_top a b []
insert_comm a b (k ∷ ks) = elim (Bool-cases (opcode_before k a)) [
  | inl ka ↦ elim (Bool-cases (opcode_before k b)) [
    | inl kb ↦
        ap (insert opcode_before a) (insert_past b k ks kb)
        ∙ insert_past a k (insert opcode_before b ks) ka
        ∙ ap (λ r. k ∷ r) (insert_comm a b ks)
        ∙ sym (
            ap (insert opcode_before b) (insert_past a k ks ka)
            ∙ insert_past b k (insert opcode_before a ks) kb)
    | inr not_kb ↦ insert_across a b k ks ka not_kb
  ]
  | inr not_ka ↦ elim (Bool-cases (opcode_before k b)) [
    | inl kb ↦ sym (insert_across b a k ks kb not_ka)
    | inr not_kb ↦
        insert_both a b k ks not_ka not_kb
        ∙ insert_top a b (k ∷ ks)
        ∙ sym (insert_both b a k ks not_kb not_ka)
  ]
]

find-swap :
    (k : ℕ) (a b : ℕ × ℕ) (xs ys : Table)
    → a.0 ≢ b.0
    → find_key (λ (x y : ℕ). x == y) k (xs ++ a ∷ b ∷ ys)
      ≡ find_key (λ (x y : ℕ). x == y) k (xs ++ b ∷ a ∷ ys)
find-swap k a b [] ys apart = ground (arith, apart)
find-swap k a b (x ∷ xs) ys apart =
    ap (λ (o : Option ℕ). if x.0 == k then some x.1 else o) (find-swap k a b xs ys apart)

sort-swap :
    (a b : ℕ × ℕ) (xs ys : Table)
    → sort opcode_before (keys_of (xs ++ a ∷ b ∷ ys))
      ≡ sort opcode_before (keys_of (xs ++ b ∷ a ∷ ys))
unfolding sort keys_of
sort-swap a b [] ys =
    insert_comm (decode_key a.0) (decode_key b.0) (sort opcode_before (keys_of ys))
sort-swap a b (x ∷ xs) ys = ap (insert opcode_before (decode_key x.0)) (sort-swap a b xs ys)

null-keys_of : (a : ℕ × ℕ) (xs ys : Table) → null (keys_of (xs ++ a ∷ ys)) ≡ false
unfolding keys_of
null-keys_of a [] ys = refl
null-keys_of a (x ∷ xs) ys = refl

-- A program with another table, which gives the same values.
abbrev pub with_table : MicrocodeProgram → Table → MicrocodeProgram
with_table program t = record program { table = t }

module _ (program : MicrocodeProgram) (format : Format) (t u : Table)
    (values : (k : ℕ)
      → find_key (λ (x y : ℕ). x == y) k t ≡ find_key (λ (x y : ℕ). x == y) k u) where
  controls_of-same :
      (key : MicrocodeKey)
      → controls_of (with_table program t) format key
        ≡ controls_of (with_table program u) format key
  unfolding controls_of
  controls_of-same key =
      ap
        (λ (o : Option ℕ). elim o as (λ (r : Option ℕ). Dumped (List Text)) [
          | none ↦ err out_of_range
          | some word ↦ ok (decode_control_word 0 program.control_paths word)
        ])
        (values (encode_key key))

  dump_opcodes-same :
      (opcode status : ℕ) (keys : List MicrocodeKey)
      → dump_opcodes (with_table program t) format opcode status keys
        ≡ dump_opcodes (with_table program u) format opcode status keys
  unfolding dump_opcodes decode_status_bits
  dump_opcodes-same opcode status [] = refl
  dump_opcodes-same opcode status (key ∷ keys) =
      let same = key.opcode == opcode in
      ap₂
        (λ (made : Dumped (List Text)) (rest : Dumped Text). made >>= λ controls. rest >>= λ later.
          ok (
            (if same then [] else format.opcode_header (not (opcode == 255)) key.opcode)
            ++ status_line program format (if same then status else 255) key.status
            ++ format.step_lines key.step controls
            ++ later))
        (controls_of-same key) (dump_opcodes-same key.opcode key.status keys)

-- The dumps of a whole program do not hang on the order of the table: when two neighbours with
-- different keys change places anywhere in it, both dumps stay the same text.
pub dump_program-swap :
    (program : MicrocodeProgram) (a b : ℕ × ℕ) (xs ys : Table)
    → a.0 ≢ b.0
    → (dump_program (with_table program (xs ++ a ∷ b ∷ ys))
        ≡ dump_program (with_table program (xs ++ b ∷ a ∷ ys)))
      × (dump_program_yaml (with_table program (xs ++ a ∷ b ∷ ys))
          ≡ dump_program_yaml (with_table program (xs ++ b ∷ a ∷ ys)))
unfolding dump_program dump_program_yaml
dump_program-swap program a b xs ys apart =
    let values = λ (k : ℕ). find-swap k a b xs ys apart in
    (
      dump_opcodes-same program text_format _ _ values 255 255 _
          ∙ ap (dump_opcodes (with_table program (xs ++ b ∷ a ∷ ys)) text_format 255 255)
              (sort-swap a b xs ys),
      ap₂
          (λ (empty : Bool) (lines : Dumped Text).
            if empty
            then ok (codes "opcodes: {}\n")
            else (lines >>= λ written. ok (codes "opcodes:\n" ++ written)))
          (null-keys_of a xs (b ∷ ys) ∙ sym (null-keys_of b xs (a ∷ ys)))
          (dump_opcodes-same program yaml_format _ _ values 255 255 _
            ∙ ap (dump_opcodes (with_table program (xs ++ b ∷ a ∷ ys)) yaml_format 255 255)
                (sort-swap a b xs ys)),
    )
