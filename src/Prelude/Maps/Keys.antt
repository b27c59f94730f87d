-- ===== src/Prelude/Maps/Keys.antt =====
-- Association lists whose keys and values are replaced, and those that are filled entry by entry.
use mathlib.Core.Path.{◌≡◌, refl, sym, ap, ◌∙◌, subst}
use mathlib.Core.Bool.{Bool, true, false}
use mathlib.Core.List.{List, [], ◌∷◌, map}
use mathlib.Core.Option.{Option, none, some}
use irata.Prelude.Tests.{if◌then◌else◌}
use irata.Prelude.Maps.{
  find_key, insert_key, emplace_key, emplace_keys, add_key, or_else, or_else_none, or_else_assoc,
}

abbrev pub map_option : {A B : Type 0} → (A → B) → Option A → Option B
map_option f (some a) = some (f a)
map_option f none = none

-- An entry with its key and its value replaced.
abbrev pub renamed : {K L V W : Type 0} → (K → L) → (V → W) → K × V → L × W
renamed key value e = (key e.0, value e.1)

-- The order of the new keys.
abbrev pub less_by : {K L : Type 0} → (L → L → Bool) → (K → L) → K → K → Bool
less_by less key a b = less (key a) (key b)

module _ {K L V W : Type 0} (same less : L → L → Bool) (same_k : K → K → Bool) (key : K → L)
    (agree : (a b : K) → same (key a) (key b) ≡ same_k a b) (value : V → W) where
  pub find-renamed :
      (k : K) (es : List (K × V))
      → find_key same (key k) (map (renamed key value) es) ≡ map_option value (find_key same_k k es)
  find-renamed k [] = refl
  find-renamed k (e ∷ es) =
      ap
        (λ (b : Bool).
          if b then some (value e.1) else find_key same (key k) (map (renamed key value) es))
        (agree e.0 k)
      ∙ at (same_k e.0 k) (find-renamed k es)
    where
      at :
          (b : Bool)
          → find_key same (key k) (map (renamed key value) es)
            ≡ map_option value (find_key same_k k es)
          → (if b then some (value e.1) else find_key same (key k) (map (renamed key value) es))
            ≡ map_option value (if b then some e.1 else find_key same_k k es)
      at true ih = refl
      at false ih = ih

  insert-renamed :
      (k : K) (v : V) (es : List (K × V))
      → insert_key same less (key k) (value v) (map (renamed key value) es)
        ≡ map (renamed key value) (insert_key same_k (less_by less key) k v es)
  insert-renamed k v [] = refl
  insert-renamed k v (e ∷ es) = at (less (key k) (key e.0)) (insert-renamed k v es)
    where
      at :
          (b : Bool)
          → insert_key same less (key k) (value v) (map (renamed key value) es)
            ≡ map (renamed key value) (insert_key same_k (less_by less key) k v es)
          → (if b
              then (key k, value v) ∷ renamed key value e ∷ map (renamed key value) es
              else renamed key value e
                ∷ insert_key same less (key k) (value v) (map (renamed key value) es))
            ≡ map
                (renamed key value)
                (if b then (k, v) ∷ e ∷ es else e ∷ insert_key same_k (less_by less key) k v es)
      at true ih = refl
      at false ih = ap (λ (rest : List (L × W)). renamed key value e ∷ rest) ih

  emplace-renamed :
      (k : K) (v : V) (es : List (K × V))
      → emplace_key same less (key k) (value v) (map (renamed key value) es)
        ≡ map (renamed key value) (emplace_key same_k (less_by less key) k v es)
  unfolding emplace_key
  emplace-renamed k v es = ap behind (find-renamed k es) ∙ at (find_key same_k k es)
    where
      behind : Option W → List (L × W)
      behind found = elim found [
        | some there ↦ map (renamed key value) es
        | none ↦ insert_key same less (key k) (value v) (map (renamed key value) es)
      ]

      at :
          (found : Option V)
          → behind (map_option value found)
            ≡ map (renamed key value) (elim found [
              | some there ↦ es
              | none ↦ insert_key same_k (less_by less key) k v es
            ])
      at (some there) = refl
      at none = insert-renamed k v es

  -- A map with new keys, that are the same when the old ones are, is the map with the keys renamed.
  pub emplace_keys-renamed :
      (new es : List (K × V))
      → emplace_keys same less (map (renamed key value) new) (map (renamed key value) es)
        ≡ map (renamed key value) (emplace_keys same_k (less_by less key) new es)
  unfolding emplace_keys
  emplace_keys-renamed [] es = refl
  emplace_keys-renamed (n ∷ new) es =
      ap (emplace_keys same less (map (renamed key value) new)) (emplace-renamed n.0 n.1 es)
      ∙ emplace_keys-renamed new (emplace_key same_k (less_by less key) n.0 n.1 es)

-- Entries that are added one by one.
unfoldable pub add_keys :
    {K V : Type 0} → (K → K → Bool) → List (K × V) → List (K × V) → List (K × V)
unfolding add_key
add_keys same_key [] found = found
add_keys same_key (e ∷ es) found = add_keys same_key es (add_key same_key e.0 e.1 found)

module _ {K V : Type 0} (same_key : K → K → Bool)
    (sound : (a b : K) → same_key a b ≡ true → a ≡ b) where
  find-add :
      (k j : K) (v : V) (es : List (K × V))
      → find_key same_key k (add_key same_key j v es)
        ≡ or_else (find_key same_key k es) (if same_key j k then some v else none)
  unfolding add_key
  find-add k j v es =
      ap (λ (o : Option V). find_key same_key k (added o)) refl
      ∙ at (find_key same_key j es) refl (same_key j k) refl
    where
      added : Option V → List (K × V)
      added found = elim found [ some there ↦ es | none ↦ (j, v) ∷ es ]

      here :
          (o : Option V)
          → find_key same_key j es ≡ o
          → same_key j k ≡ true
          → find_key same_key k es ≡ o
      here o found r = subst (λ (x : K). find_key same_key x es ≡ o) (sound j k r) found

      at :
          (o : Option V)
          → find_key same_key j es ≡ o
          → (b : Bool) → same_key j k ≡ b
          → find_key same_key k (added o)
            ≡ or_else (find_key same_key k es) (if b then some v else none)
      at (some a) found true r = rw (here (some a) found r) refl
      at (some a) found false r = sym (or_else_none (find_key same_key k es))
      at none found true r = rw (here none found r, r) refl
      at none found false r = rw r (sym (or_else_none (find_key same_key k es)))

  pub find-add_keys :
      (k : K) (es found : List (K × V))
      → find_key same_key k (add_keys same_key es found)
        ≡ or_else (find_key same_key k found) (find_key same_key k es)
  unfolding add_keys
  find-add_keys k [] found = sym (or_else_none (find_key same_key k found))
  find-add_keys k (e ∷ es) found =
      find-add_keys k es (add_key same_key e.0 e.1 found)
      ∙ ap (λ (o : Option V). or_else o (find_key same_key k es)) (find-add k e.0 e.1 found)
      ∙ or_else_assoc (find_key same_key k found) (if same_key e.0 k then some e.1 else none)
          (find_key same_key k es)
      ∙ ap (λ (o : Option V). or_else (find_key same_key k found) o) (first (same_key e.0 k))
    where
      first :
          (b : Bool)
          → or_else (if b then some e.1 else none) (find_key same_key k es)
            ≡ (if b then some e.1 else find_key same_key k es)
      first true = refl
      first false = refl
