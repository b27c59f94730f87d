-- ===== src/Sim/Controller/Rom.antt =====
-- The ROM that the instruction memory burns (sim/src/controller/instruction_memory.cpp), and the
-- controls that the control encoder takes (control_encoder.cpp).
use irata.Prelude.{
  Text, same_text-eq, ℕ, suc, ◌≤◌, ◌<◌, ◌≡◌, refl, sym, ap, ◌∙◌, subst, Bool, true, false, some,
  List, [], ◌∷◌, map, length, get_or, set, replicate, length-set, length-replicate, get_or-set_self,
  get_or-set_ne, ◌==◌, ltb, leb, ok, arith, Bool-cases, inl, inr, ==→eq, eq→==, Option, not-false,
  >>-eq-ok, throw_if-then, ok_injective,
}
use irata.Microcode.Compiler.{Table, find_word}
use irata.Sim.Controller.{max_address, burn, new_rom, check_paths, initialize_controls}
use irata.Sim.Controller.Lookup.{SamePaths}

-- The words of a table are in the ROM.
abbrev pub Burnt : Table → List ℕ → Type 0
Burnt table rom =
    (key word : ℕ)
    → find_word key table ≡ some word
    → (key < length rom) × (get_or rom key 0 ≡ word)

burn-Burnt :
    (table : Table) (rom : List ℕ)
    → max_address table < length rom
    → (burnt : List ℕ) × (burn table rom ≡ ok burnt)
      × (length burnt ≡ length rom)
      × Burnt table burnt
unfolding max_address burn
burn-Burnt [] rom small = (rom, refl, refl, λ key word h. cc)
burn-Burnt (e ∷ es) rom small =
    let (burnt, made, same, held) = burn-Burnt es rom (omega arith) in
    let fits : leb (length burnt) e.0 ≡ false = ground (arith, same, small) in
    (
      set burnt e.0 e.1,
      rw made (rw fits refl),
      length-set burnt e.0 e.1 ∙ same,
      stored burnt held (omega (arith, same)),
    )
  where
    differs : {b : Bool} → b ≡ true → b ≡ false → ⊥
    differs p q = cc

    stored :
        (burnt : List ℕ) → Burnt es burnt → e.0 < length burnt → Burnt (e ∷ es) (set burnt e.0 e.1)
    stored burnt held fits key word h = elim (Bool-cases (e.0 == key)) [
      | inl same ↦
          let here : e.0 ≡ key = ==→eq e.0 key same in
          let there : ◌≡◌ {A = Option ℕ} (some e.1) (some word) = rw same at h in
          (
            omega (arith, length-set burnt e.0 e.1, here),
            ap (λ (n : ℕ). get_or (set burnt e.0 e.1) n 0) (sym here)
                ∙ get_or-set_self burnt e.0 e.1 0 fits
                ∙ (cc),
          )
      | inr other ↦
          let (below, there) = held key word (rw other at h) in
          (
            omega (arith, length-set burnt e.0 e.1),
            get_or-set_ne burnt e.0 key e.1 0 (λ q. differs (eq→== e.0 key q) other) ∙ there,
          )
    ]

pub new_rom-Burnt : (table : Table) → (rom : List ℕ) × (new_rom table ≡ ok rom) × Burnt table rom
unfolding new_rom
new_rom-Burnt table =
    let blank = replicate (suc (max_address table)) 0 in
    let (rom, made, same, held) =
      burn-Burnt table blank
        (omega (arith, length-replicate {A = ℕ} (suc (max_address table)) 0)) in
    (rom, made, held)

module _ (path_of name_of : ℕ → Text) where
  check_paths-SamePaths :
      (registered order : List ℕ)
      → length order ≡ length registered
      → check_paths path_of (map name_of registered) order ≡ ok tt
      → SamePaths path_of name_of order registered
  unfolding check_paths
  check_paths-SamePaths [] [] e h = tt
  check_paths-SamePaths [] (r ∷ rs) e h = absurd (omega arith)
  check_paths-SamePaths (c ∷ cs) [] e h = absurd (omega arith)
  check_paths-SamePaths (c ∷ cs) (r ∷ rs) e h =
      let (fits, others) = throw_if-then _ _ _ h in
      (
        same_text-eq (path_of r) (name_of c) (not-false _ fits),
        check_paths-SamePaths cs rs (omega arith) others,
      )

  length-map : (xs : List ℕ) → length (map name_of xs) ≡ length xs
  length-map [] = refl
  length-map (x ∷ xs) = ap suc (length-map xs)

  -- What the checks of `ControlEncoder::Initialize` have shown.
  pub initialize_controls-SamePaths :
      (registered order references : List ℕ)
      → initialize_controls path_of (map name_of registered) order ≡ ok references
      → (length references ≤ 128)
        × (length references ≡ length registered)
        × SamePaths path_of name_of references registered
  unfolding initialize_controls
  initialize_controls-SamePaths registered order references h =
      let (few, sized) = throw_if-then (ltb 128 (length (map name_of registered))) _ _ h in
      let (fits, checked) = throw_if-then _ _ _ sized in
      let (same, made) =
        >>-eq-ok (check_paths path_of (map name_of registered) order) (ok order) checked in
      let there : order ≡ references = ok_injective made in
      let counted : length order ≡ length registered =
        ==→eq _ _ (not-false _ fits) ∙ length-map registered in
      subst
        (λ (rs : List ℕ).
          (length rs ≤ 128)
          × (length rs ≡ length registered)
          × SamePaths path_of name_of rs registered)
        there
        (
          ground (arith, few, counted, length-map registered),
          counted,
          check_paths-SamePaths registered order counted same,
        )
