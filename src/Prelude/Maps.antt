-- ===== src/Prelude/Maps.antt =====
-- `std::map` and `std::unordered_map` as association lists, for keys with a test for equality and an
-- order.
pub mod Keys
use mathlib.Core.Path.{◌≡◌, refl, sym, ap, subst, ◌∙◌}
use mathlib.Core.Bool.{Bool, true, false}
use mathlib.Core.List.{List, [], ◌∷◌}
use mathlib.Core.Logic.{◌≢◌, ◌⊎◌, inl, inr}
use mathlib.Core.Option.{Option, none, some}
use native.Mathlib.Omega.{arith}
use irata.Prelude.Tests.{if◌then◌else◌, if_both, Option-cases}
use irata.Prelude.Lists.{All}

module _ {ℓ κ} {K : Type ℓ} {V : Type κ} (same_key : K → K → Bool) where
  abbrev pub find_key : K → List (K × V) → Option V
  find_key k [] = none
  find_key k (e ∷ es) = if same_key e.0 k then some e.1 else find_key k es

  -- `std::unordered_map::emplace`, which keeps the value that a key has.
  unfoldable pub add_key : K → V → List (K × V) → List (K × V)
  add_key k v es = elim (find_key k es) [ some there ↦ es | none ↦ (k, v) ∷ es ]

  module _ (less_key : K → K → Bool) where
    abbrev pub insert_key : K → V → List (K × V) → List (K × V)
    insert_key k v [] = (k, v) ∷ []
    insert_key k v (e ∷ es) =
        let later = insert_key k v es in if less_key k e.0 then (k, v) ∷ e ∷ es else e ∷ later

    -- `std::map::emplace`, which keeps the value that a key has.
    unfoldable pub emplace_key : K → V → List (K × V) → List (K × V)
    emplace_key k v es = elim (find_key k es) [ some there ↦ es | none ↦ insert_key k v es ]

    -- A map built from a range.
    unfoldable pub emplace_keys : List (K × V) → List (K × V) → List (K × V)
    unfolding emplace_key
    emplace_keys [] es = es
    emplace_keys (n ∷ new) es = emplace_keys new (emplace_key n.0 n.1 es)

abbrev pub or_else {ℓ} : {A : Type ℓ} → Option A → Option A → Option A
or_else (some a) o = some a
or_else none o = o

pub or_else_none {ℓ} : {A : Type ℓ} (o : Option A) → or_else o none ≡ o
or_else_none (some a) = refl
or_else_none none = refl

pub or_else_assoc {ℓ} :
    {A : Type ℓ} (o p q : Option A) → or_else (or_else o p) q ≡ or_else o (or_else p q)
or_else_assoc (some a) p q = refl
or_else_assoc none p q = refl

module _ {K V : Type 0} (same_key less_key : K → K → Bool)
    (sound : (a b : K) → same_key a b ≡ true → a ≡ b) where
  -- The value that a new entry gives a key.
  abbrev entry : K → V → K → Option V
  entry j v k = if same_key j k then some v else none

  find-insert :
      (k j : K) (v : V) (es : List (K × V))
      → find_key same_key j es ≡ none
      → find_key same_key k (insert_key same_key less_key j v es)
        ≡ or_else (find_key same_key k es) (entry j v k)
  find-insert k j v [] h = refl
  find-insert k j v (e ∷ es) h =
      let absent : same_key j k ≡ true → find_key same_key k (e ∷ es) ≡ none =
        λ r. subst (λ (x : K). find_key same_key x (e ∷ es) ≡ none) (sound j k r) h in
      let behind = or_else_none (find_key same_key k (e ∷ es)) in
      ground (arith, behind, absent, h, find-insert k j v es)

  -- What an emplacement does with the value that is found.
  abbrev emplaced : K → V → List (K × V) → Option V → List (K × V)
  emplaced j v es found = elim found [
    | some there ↦ es
    | none ↦ insert_key same_key less_key j v es
  ]

  -- A map that is emplaced into has the value it had, or the new one.
  pub find-emplace :
      (k j : K) (v : V) (es : List (K × V))
      → find_key same_key k (emplace_key same_key less_key j v es)
        ≡ or_else (find_key same_key k es) (entry j v k)
  unfolding emplace_key
  find-emplace k j v es = elim (Option-cases (find_key same_key j es)) [
    | inl absent ↦
        ap (λ (o : Option V). find_key same_key k (emplaced j v es o)) absent
        ∙ find-insert k j v es absent
    | inr there ↦
        ap (λ (o : Option V). find_key same_key k (emplaced j v es o)) there.1
        ∙ kept (same_key j k)
            (λ r. subst (λ (x : K). find_key same_key x es ≡ some there.0) (sound j k r) there.1)
  ]
    where
      kept :
          (b : Bool) {a : V}
          → (b ≡ true → find_key same_key k es ≡ some a)
          → find_key same_key k es ≡ or_else (find_key same_key k es) (if b then some v else none)
      kept true h = rw (h refl) refl
      kept false h = sym (or_else_none (find_key same_key k es))

  pub find-emplace_keys :
      (k : K) (new es : List (K × V))
      → find_key same_key k (emplace_keys same_key less_key new es)
        ≡ or_else (find_key same_key k es) (find_key same_key k new)
  unfolding emplace_keys
  find-emplace_keys k [] es = sym (or_else_none (find_key same_key k es))
  find-emplace_keys k (n ∷ new) es =
      find-emplace_keys k new (emplace_key same_key less_key n.0 n.1 es)
      ∙ ap (λ (o : Option V). or_else o (find_key same_key k new)) (find-emplace k n.0 n.1 es)
      ∙ or_else_assoc (find_key same_key k es) (entry n.0 n.1 k) (find_key same_key k new)
      ∙ ap (λ (o : Option V). or_else (find_key same_key k es) o) (first (same_key n.0 k))
    where
      first :
          (b : Bool)
          → or_else (if b then some n.1 else none) (find_key same_key k new)
            ≡ (if b then some n.1 else find_key same_key k new)
      first true = refl
      first false = refl

  -- Every key stands once.
  abbrev pub IsDistinct : List (K × V) → Type 0
  IsDistinct [] = Unit
  IsDistinct (e ∷ es) = (find_key same_key e.0 es ≡ none) × IsDistinct es

  insert-IsDistinct :
      (j : K) (v : V) (es : List (K × V))
      → find_key same_key j es ≡ none
      → IsDistinct es
      → IsDistinct (insert_key same_key less_key j v es)
  insert-IsDistinct j v [] h d = (refl, tt)
  insert-IsDistinct j v (e ∷ es) h d =
      if_both IsDistinct (less_key j e.0) (h, d)
        (other (same_key j e.0) refl, insert-IsDistinct j v es (later (same_key e.0 j) e.1 h) d.1)
    where
      later :
          (b : Bool) (a : V)
          → (if b then some a else find_key same_key j es) ≡ none
          → find_key same_key j es ≡ none
      later true a h = cc
      later false a h = h

      present : (b : Bool) → b ≡ true → (if b then some e.1 else find_key same_key j es) ≢ none
      present true p q = cc
      present false p q = cc

      other :
          (b : Bool)
          → same_key j e.0 ≡ b
          → find_key same_key e.0 (insert_key same_key less_key j v es) ≡ none
      other true same =
          let e_is_j : e.0 ≡ j = sym (sound j e.0 same) in
          let same_e : same_key e.0 e.0 ≡ true =
            subst (λ (x : K). same_key x e.0 ≡ true) (sound j e.0 same) same in
          let same_j : same_key e.0 j ≡ true =
            subst (λ (x : K). same_key e.0 x ≡ true) e_is_j same_e in
          absurd (present (same_key e.0 j) same_j h)
      other false different =
          find-insert e.0 j v es (later (same_key e.0 j) e.1 h) ∙ rw (d.0, different) refl

  emplace-IsDistinct :
      (j : K) (v : V) (es : List (K × V))
      → IsDistinct es
      → IsDistinct (emplace_key same_key less_key j v es)
  unfolding emplace_key
  emplace-IsDistinct j v es d = elim (Option-cases (find_key same_key j es)) [
    | inl absent ↦
        subst (λ (o : Option V). IsDistinct (emplaced j v es o)) (sym absent)
          (insert-IsDistinct j v es absent d)
    | inr there ↦ subst (λ (o : Option V). IsDistinct (emplaced j v es o)) (sym there.1) d
  ]

  pub emplace_keys-IsDistinct :
      (new es : List (K × V)) → IsDistinct es → IsDistinct (emplace_keys same_key less_key new es)
  unfolding emplace_keys
  emplace_keys-IsDistinct [] es d = d
  emplace_keys-IsDistinct (n ∷ new) es d =
      emplace_keys-IsDistinct new (emplace_key same_key less_key n.0 n.1 es)
        (emplace-IsDistinct n.0 n.1 es d)

  insert-All {κ} :
      (P : K × V → Type κ) (j : K) (v : V) (es : List (K × V))
      → All P es
      → P (j, v)
      → All P (insert_key same_key less_key j v es)
  insert-All P j v [] h p = (p, tt)
  insert-All P j v (e ∷ es) h p =
      if_both (All P) (less_key j e.0) (p, h) (h.0, insert-All P j v es h.1 p)

  pub emplace_keys-All {κ} :
      (P : K × V → Type κ) (new es : List (K × V))
      → All P es
      → All P new
      → All P (emplace_keys same_key less_key new es)
  unfolding emplace_keys emplace_key
  emplace_keys-All P [] es h g = h
  emplace_keys-All P (n ∷ new) es h g =
      emplace_keys-All P new (emplace_key same_key less_key n.0 n.1 es)
        (at (find_key same_key n.0 es)) g.1
    where
      at : (o : Option V) → All P (emplaced n.0 n.1 es o)
      at none = insert-All P n.0 n.1 es h g.0
      at (some v) = h
