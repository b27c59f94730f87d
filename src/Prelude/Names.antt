-- ===== src/Prelude/Names.antt =====
-- A `std::string`, by its characters' codes, and the search of a map with such keys.
use Prim.Native.Char.{code}
use Prim.Native.String.{String}
use Prim.Native.Nat.{ℕ}
use mathlib.Core.Bool.{Bool, true, false, ◌&&◌, ◌||◌}
use mathlib.Core.List.{List, [], ◌∷◌}
use mathlib.Core.Option.{Option, none, some}
use mathlib.Core.Path.{◌≡◌, refl, ap₂}
use irata.Prelude.Tests.{==→eq, ==_self, and_true, ltb, ◌==◌, if◌then◌else◌}

abbrev pub Text : Type 0
Text = List ℕ

abbrev pub same_text : Text → Text → Bool
same_text [] [] = true
same_text [] (d ∷ ds) = false
same_text (c ∷ cs) [] = false
same_text (c ∷ cs) (d ∷ ds) = c == d && same_text cs ds

-- `std::less<std::string>`
abbrev pub less_text : Text → Text → Bool
less_text [] [] = false
less_text [] (d ∷ ds) = true
less_text (c ∷ cs) [] = false
less_text (c ∷ cs) (d ∷ ds) = ltb c d || (c == d && less_text cs ds)

abbrev pub find_name {ℓ} : {A : Type ℓ} → Text → List (Text × A) → Option A
find_name name [] = none
find_name name (e ∷ es) = if same_text e.0 name then some e.1 else find_name name es

-- The characters of a literal.
abbrev pub codes : String → Text
codes String.[] = []
codes (String.◌∷◌ c s) = code c ∷ codes s

pub same_text-eq : (a b : Text) → same_text a b ≡ true → a ≡ b
same_text-eq [] [] h = refl
same_text-eq [] (d ∷ ds) h = cc
same_text-eq (c ∷ cs) [] h = cc
same_text-eq (c ∷ cs) (d ∷ ds) h =
    let both = and_true (c == d) (same_text cs ds) h in
    ap₂ (λ (x : ℕ) (xs : Text). x ∷ xs) (==→eq c d both.0) (same_text-eq cs ds both.1)

pub same_text_self : (a : Text) → same_text a a ≡ true
same_text_self [] = refl
same_text_self (c ∷ cs) = rw (==_self c, same_text_self cs) refl
