-- ===== src/Assembler/DebugJson/Objects.antt =====
-- The loops of the JSON parser over lists that EncodeDebugJson writes: sim/src/debug_symbols.cpp and
-- assembler/src/cartridge.cpp.
use irata.Prelude.{
  Text, same_text, less_text, ℕ, zero, suc, ◌<◌, ◌≡◌, refl, ap, ◌∙◌, true, false, List, [], ◌∷◌,
  map, length, ◌==◌, ok, ◌>>=◌, All, arith,
}
use irata.Prelude.Maps.{emplace_key, emplace_keys}
use irata.Sim.Json.{
  JsonValue, Parsed, peek, consume, skip_whitespace, parse_member, parse_members, parse_items,
  with_item,
}
use irata.Assembler.DebugJson.{write_lines}

-- A member behind its key.
abbrev pub keyed : Text → Parsed JsonValue → Parsed (Text × JsonValue)
keyed key r = r >>= λ parsed. ok ((key, parsed.0), parsed.1)

unfoldable pub put : Text → JsonValue → List (Text × JsonValue) → List (Text × JsonValue)
unfolding emplace_key
put k v found = emplace_key same_text less_text k v found

module _ (value : Text → Parsed JsonValue) where
  -- What the loop makes of a member.
  abbrev behind_member :
      ℕ → List (Text × JsonValue) → Parsed (Text × JsonValue) → Parsed (List (Text × JsonValue))
  unfolding parse_members put
  behind_member fuel found r =
      (r >>= λ parsed. elim (peek (skip_whitespace parsed.1) == b'}') [
        | true ↦ consume b'}' (skip_whitespace parsed.1) >>= λ rest.
            ok (put parsed.0.0 parsed.0.1 found, rest)
        | false ↦ consume b',' (skip_whitespace parsed.1) >>= λ rest.
            parse_members fuel value (put parsed.0.0 parsed.0.1 found) rest
      ])

  pub parse_members-next :
      (fuel : ℕ) (found : List (Text × JsonValue)) (s : Text) {k : Text} {v : JsonValue}
      {rest : Text}
      → parse_member value s ≡ ok ((k, v), b',' ∷ rest)
      → parse_members (suc fuel) value found s ≡ parse_members fuel value (put k v found) rest
  unfolding parse_members put skip_whitespace
  parse_members-next fuel found s h = ap (behind_member fuel found) h

  pub parse_members-last :
      (fuel : ℕ) (found : List (Text × JsonValue)) (s : Text) {k : Text} {v : JsonValue}
      {more rest : Text}
      → parse_member value s ≡ ok ((k, v), more)
      → skip_whitespace more ≡ b'}' ∷ rest
      → parse_members (suc fuel) value found s ≡ ok (put k v found, rest)
  unfolding parse_members put
  parse_members-last fuel found s {k} {v} {more} {rest} h g =
      ap (behind_member fuel found) h ∙ ap closed g
    where
      closed : Text → Parsed (List (Text × JsonValue))
      closed t = elim (peek t == b'}') [
        | true ↦ consume b'}' t >>= λ rest. ok (put k v found, rest)
        | false ↦ consume b',' t >>= λ rest. parse_members fuel value (put k v found) rest
      ]

  -- What the loop makes of an item.
  abbrev behind_item : ℕ → Parsed JsonValue → Parsed (List JsonValue)
  unfolding parse_items
  behind_item fuel r =
      (r >>= λ parsed. elim (peek (skip_whitespace parsed.1) == b']') [
        | true ↦ consume b']' (skip_whitespace parsed.1) >>= λ rest. ok (parsed.0 ∷ [], rest)
        | false ↦ consume b',' (skip_whitespace parsed.1) >>= λ rest.
            with_item parsed.0 (parse_items fuel value rest)
      ])

  pub parse_items-next :
      (fuel : ℕ) (s : Text) {v : JsonValue} {rest : Text}
      → value s ≡ ok (v, b',' ∷ rest)
      → parse_items (suc fuel) value s ≡ with_item v (parse_items fuel value rest)
  unfolding parse_items skip_whitespace
  parse_items-next fuel s h = ap (behind_item fuel) h

  pub parse_items-last :
      (fuel : ℕ) (s : Text) {v : JsonValue} {more rest : Text}
      → value s ≡ ok (v, more)
      → skip_whitespace more ≡ b']' ∷ rest
      → parse_items (suc fuel) value s ≡ ok (v ∷ [], rest)
  unfolding parse_items
  parse_items-last fuel s {v} {more} {rest} h g = ap (behind_item fuel) h ∙ ap closed g
    where
      closed : Text → Parsed (List JsonValue)
      closed t = elim (peek t == b']') [
        | true ↦ consume b']' t >>= λ rest. ok (v ∷ [], rest)
        | false ↦ consume b',' t >>= λ rest. with_item v (parse_items fuel value rest)
      ]

  pub parse_items-newline :
      (fuel : ℕ) (s : Text)
      → ((t : Text) → value (b'\n' ∷ t) ≡ value t)
      → parse_items fuel value (b'\n' ∷ s) ≡ parse_items fuel value s
  unfolding parse_items
  parse_items-newline zero s h = refl
  parse_items-newline (suc fuel) s h = ap (behind_item fuel) (h s)

  parse_members-newline :
      (fuel : ℕ) (found : List (Text × JsonValue)) (s : Text)
      → parse_members fuel value found (b'\n' ∷ s) ≡ parse_members fuel value found s
  unfolding parse_members parse_member skip_whitespace
  parse_members-newline zero found s = refl
  parse_members-newline (suc fuel) found s = refl

  -- The lines of an array, whose items read back one by one.
  pub parse_items-write_lines :
      {A : Type 0} (fuel : ℕ) (line : A → Text → Text) (json : A → JsonValue) (P : A → Type 0)
      (a : A) (others : List A) (out rest : Text)
      → ((b : A) (s : Text) → P b → value (line b s) ≡ ok (json b, s))
      → ((s : Text) → value (b'\n' ∷ s) ≡ value s)
      → skip_whitespace out ≡ b']' ∷ rest
      → All P (a ∷ others)
      → length others < fuel
      → parse_items fuel value (write_lines line (a ∷ others) out)
        ≡ ok (map json (a ∷ others), rest)
  unfolding write_lines skip_whitespace
  parse_items-write_lines zero line json P a others out rest reads newline closes all h =
      absurd (omega arith)
  parse_items-write_lines (suc fuel) line json P a [] out rest reads newline closes all h =
      parse_items-last fuel (line a (b'\n' ∷ out)) (reads a (b'\n' ∷ out) all.0) closes
  parse_items-write_lines (suc fuel) line json P a (b ∷ others) out rest reads newline closes all
        h =
      let later = write_lines line (b ∷ others) out in
      parse_items-next fuel (line a (b',' ∷ b'\n' ∷ later)) (reads a (b',' ∷ b'\n' ∷ later) all.0)
      ∙ ap (with_item (json a)) (
          parse_items-newline fuel later newline
          ∙ parse_items-write_lines fuel line json P b others out rest reads newline closes all.1
              (omega (arith, h)))

  -- The lines of an object, whose members read back one by one.
  pub parse_members-write_lines :
      {A : Type 0} (fuel : ℕ) (line : A → Text → Text) (entry : A → Text × JsonValue)
      (P : A → Type 0) (a : A) (others : List A) (out rest : Text) (found : List (Text × JsonValue))
      → ((b : A) (s : Text) → P b → parse_member value (line b s) ≡ ok (entry b, s))
      → skip_whitespace out ≡ b'}' ∷ rest
      → All P (a ∷ others)
      → length others < fuel
      → parse_members fuel value found (write_lines line (a ∷ others) out)
        ≡ ok (emplace_keys same_text less_text (map entry (a ∷ others)) found, rest)
  unfolding write_lines skip_whitespace emplace_keys put
  parse_members-write_lines zero line entry P a others out rest found reads closes all h =
      absurd (omega arith)
  parse_members-write_lines (suc fuel) line entry P a [] out rest found reads closes all h =
      parse_members-last fuel found (line a (b'\n' ∷ out)) (reads a (b'\n' ∷ out) all.0) closes
  parse_members-write_lines (suc fuel) line entry P a (b ∷ others) out rest found reads closes all
        h =
      let later = write_lines line (b ∷ others) out in
      parse_members-next fuel found (line a (b',' ∷ b'\n' ∷ later))
        (reads a (b',' ∷ b'\n' ∷ later) all.0)
      ∙ parse_members-newline fuel (put (entry a).0 (entry a).1 found) later
      ∙ parse_members-write_lines fuel line entry P b others out rest
          (put (entry a).0 (entry a).1 found) reads closes all.1 (omega (arith, h))
