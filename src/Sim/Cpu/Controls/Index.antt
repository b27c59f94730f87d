-- ===== src/Sim/Cpu/Controls/Index.antt =====
-- What the index of the controls of sim/src/cpu.cpp gives for the paths of the hardware model.
use irata.Prelude.{
  Text, same_text, same_text-eq, same_text_self, less_text, ℕ, zero, suc, ◌+◌, ◌≤◌, ◌≡◌, refl, sym,
  ap, subst, ◌∙◌, true, false, not, Bool-cases, inl, inr, Option, none, some, List, [], ◌∷◌, ◌++◌,
  map, length, get_elem?, get_elem?-eq-get_or, null, ltb, Result, ok, err, >>=-eq-ok, throw_if-then,
  ok_injective, arith,
}
use irata.Prelude.Maps.{find_key, IsDistinct}
use irata.Sim.Cpu.Controls.{
  Component, ControlError, duplicate_control_path, fewer_controls, control_not_found,
  order_mismatch, ControlIndex, find_control, add_control, add_component, add_components,
  build_control_index, is_found, is_other, validate_from, validate_against_hdl, resolve_control,
}

abbrev Entries : Type 0
Entries = List (Text × ℕ)

abbrev Distinct : Entries → Type 0
Distinct es = IsDistinct same_text less_text same_text-eq es

map-append : {A B : Type 0} (f : A → B) (xs ys : List A) → map f (xs ++ ys) ≡ map f xs ++ map f ys
map-append f [] ys = refl
map-append f (x ∷ xs) ys = ap (λ zs. f x ∷ zs) (map-append f xs ys)

get-map :
    {A B : Type 0} (f : A → B) (xs : List A) (i : ℕ) {y : B}
    → get_elem? (map f xs) i ≡ some y
    → (x : A) × (get_elem? xs i ≡ some x) × (f x ≡ y)
get-map f [] i h = cc
get-map f (x ∷ xs) zero h = (x, refl, cc)
get-map f (x ∷ xs) (suc i) h = get-map f xs i h

get-map-some :
    {A B : Type 0} (f : A → B) (xs : List A) (i : ℕ) {x : A}
    → get_elem? xs i ≡ some x
    → get_elem? (map f xs) i ≡ some (f x)
get-map-some f [] i h = cc
get-map-some f (x ∷ xs) zero h = ap some (ap f cc)
get-map-some f (x ∷ xs) (suc i) h = get-map-some f xs i h

-- An entry that is put behind the others.
find-append_other :
    (k j : Text) (v : ℕ) (es : Entries)
    → find_key same_text k es ≡ none
    → same_text j k ≡ false
    → find_key same_text k (es ++ (j, v) ∷ []) ≡ none
find-append_other k j v [] h d = rw d refl
find-append_other k j v (e ∷ es) h d = elim (Bool-cases (same_text e.0 k)) [
  | inl same ↦ absurd (ground (arith, h, same))
  | inr other ↦ rw other (find-append_other k j v es (rw other at h) d)
]

same_text_comm : (a b : Text) → same_text a b ≡ false → same_text b a ≡ false
same_text_comm a b h = elim (Bool-cases (same_text b a)) [
  | inl same ↦
      let equal : b ≡ a = same_text-eq b a same in
      let both : same_text a b ≡ true =
        subst (λ x. same_text a x ≡ true) (sym equal) (same_text_self a) in
      absurd (ground (arith, h, both))
  | inr other ↦ other
]

append-Distinct :
    (j : Text) (v : ℕ) (es : Entries)
    → find_key same_text j es ≡ none
    → Distinct es
    → Distinct (es ++ (j, v) ∷ [])
append-Distinct j v [] h d = (refl, tt)
append-Distinct j v (e ∷ es) h d = elim (Bool-cases (same_text e.0 j)) [
  | inl same ↦ absurd (ground (arith, h, same))
  | inr other ↦ (
    find-append_other e.0 j v es d.0 (same_text_comm e.0 j other),
    append-Distinct j v es (rw other at h) d.1,
  )
]

-- In a map each entry is found under its key.
get-find :
    (es : Entries) (i : ℕ) (e : Text × ℕ)
    → Distinct es
    → get_elem? es i ≡ some e
    → find_key same_text e.0 es ≡ some e.1
get-find [] i e d h = cc
get-find (f ∷ es) zero e d h =
    let same : f ≡ e = cc in
    subst (λ (x : Text × ℕ). find_key same_text x.0 (f ∷ es) ≡ some x.1) same
      (rw (same_text_self f.0) refl)
get-find (f ∷ es) (suc i) e d h = elim (Bool-cases (same_text f.0 e.0)) [
  | inl same ↦
      let found : find_key same_text f.0 es ≡ some e.1 =
        subst (λ x. find_key same_text x es ≡ some e.1) (sym (same_text-eq f.0 e.0 same))
          (get-find es i e d.1 h) in
      absurd (ground (arith, found, d.0))
  | inr other ↦ rw other (get-find es i e d.1 h)
]

-- The three parts of an index belong together.
abbrev pub IsIndex : ControlIndex → Type 0
IsIndex index =
    Distinct index.controls_by_path
    × (index.control_paths ≡ map (λ e. e.0) index.controls_by_path)
    × (index.control_order ≡ map (λ e. e.1) index.controls_by_path)

abbrev extended : Text → ℕ → ControlIndex → ControlIndex
extended path control index = record {
  controls_by_path = index.controls_by_path ++ (path, control) ∷ [];
  control_paths = index.control_paths ++ path ∷ [];
  control_order = index.control_order ++ control ∷ [];
}

add_control-eq-ok :
    (path : Text) (control : ℕ) (index next : ControlIndex)
    → add_control path control index ≡ ok next
    → (find_control index path ≡ none) × (extended path control index ≡ next)
unfolding add_control
add_control-eq-ok path control index next made = by_found (find_control index path) made
  where
    by_found :
        (o : Option ℕ)
        → ◌≡◌ {A = Result ControlError ControlIndex}
            (elim o [
              | some there ↦ err duplicate_control_path
              | none ↦ ok (extended path control index)
            ])
            (ok next)
        → (o ≡ none) × (extended path control index ≡ next)
    by_found none h = (refl, ok_injective h)
    by_found (some there) h = cc

extended-IsIndex :
    (path : Text) (control : ℕ) (index : ControlIndex)
    → IsIndex index
    → find_control index path ≡ none
    → IsIndex (extended path control index)
extended-IsIndex path control index (distinct, paths, order) absent = (
  append-Distinct path control index.controls_by_path absent distinct,
  ap (λ ps. ps ++ path ∷ []) paths
      ∙ sym (map-append (λ (e : Text × ℕ). e.0) index.controls_by_path ((path, control) ∷ [])),
  ap (λ cs. cs ++ control ∷ []) order
      ∙ sym (map-append (λ (e : Text × ℕ). e.1) index.controls_by_path ((path, control) ∷ [])),
)

add_component-IsIndex :
    (component : Component) (index next : ControlIndex)
    → IsIndex index
    → add_component component index ≡ ok next
    → IsIndex next
unfolding add_component
add_component-IsIndex component index next h made = by_control component.control made
  where
    by_control :
        (o : Option ℕ)
        → ◌≡◌ {A = Result ControlError ControlIndex}
            (elim o [ none ↦ ok index | some control ↦ add_control component.path control index ])
            (ok next)
        → IsIndex next
    by_control none g = subst IsIndex (ok_injective g) h
    by_control (some control) g =
        let (absent, same) = add_control-eq-ok component.path control index next g in
        subst IsIndex same (extended-IsIndex component.path control index h absent)

add_components-IsIndex :
    (components : List Component) (index next : ControlIndex)
    → IsIndex index
    → add_components components index ≡ ok next
    → IsIndex next
unfolding add_components
add_components-IsIndex [] index next h made = subst IsIndex (ok_injective made) h
add_components-IsIndex (c ∷ cs) index next h made =
    let (mid, one, others) = >>=-eq-ok (add_component c index) _ made in
    add_components-IsIndex cs mid next (add_component-IsIndex c index mid h one) others

validate_step :
    (index : ControlIndex) (i : ℕ) (p : Text) (paths : List Text)
    → validate_from index i (p ∷ paths) ≡ ok tt
    → (is_other (get_elem? index.control_paths i) p ≡ false)
      × (validate_from index (suc i) paths ≡ ok tt)
unfolding validate_from
validate_step index i p paths h =
    let (found, rest) =
      throw_if-then (not (is_found (find_control index p))) control_not_found _ h in
    throw_if-then (is_other (get_elem? index.control_paths i) p) order_mismatch _ rest

-- An index that was validated has the paths of the hardware model at their places.
validate_from-get :
    (index : ControlIndex) (i j : ℕ) (paths : List Text) {path : Text}
    → validate_from index i paths ≡ ok tt
    → i + length paths ≤ length index.control_paths
    → get_elem? paths j ≡ some path
    → get_elem? index.control_paths (i + j) ≡ some path
unfolding validate_from
validate_from-get index i j [] h fits g = cc
validate_from-get index i (suc j) (p ∷ paths) {path} h fits g =
    let (same, others) = validate_step index i p paths h in
    subst (λ k. get_elem? index.control_paths k ≡ some path) (omega arith)
      (validate_from-get index (suc i) j paths others (omega (arith, fits)) g)
validate_from-get index i zero (p ∷ paths) {path} h fits g =
    let (same, others) = validate_step index i p paths h in
    subst (λ k. get_elem? index.control_paths k ≡ some path) (omega arith)
      (there (get_elem? index.control_paths i) refl same ∙ g)
  where
    there :
        (o : Option Text)
        → get_elem? index.control_paths i ≡ o
        → is_other o p ≡ false
        → get_elem? index.control_paths i ≡ some p
    there none e n =
        absurd
          (ground (arith, e, get_elem?-eq-get_or index.control_paths i [] (omega (arith, fits))))
    there (some q) e n = e ∙ ap some (same_text-eq q p (ground (arith, n)))

-- The control of a path: when the index is built and validated, each path of the hardware model that
-- is not empty resolves to the control that stands at the path's own place in the control order.
pub resolve_control-validated :
    (components : List Component) (hdl_paths : List Text) (index : ControlIndex) (i : ℕ)
    (path : Text)
    → build_control_index components ≡ ok index
    → validate_against_hdl hdl_paths index ≡ ok tt
    → get_elem? hdl_paths i ≡ some path
    → null path ≡ false
    → (control : ℕ) × (resolve_control index path ≡ ok control)
      × (get_elem? index.control_order i ≡ some control)
unfolding build_control_index validate_against_hdl resolve_control
resolve_control-validated components hdl_paths index i path built validated there named =
    let (distinct, paths, order) =
      add_components-IsIndex components
        (record { controls_by_path = []; control_paths = []; control_order = [] }) index
        (tt, refl, refl) built in
    let (enough, looped) =
      throw_if-then (ltb (length index.control_paths) (length hdl_paths)) fewer_controls _
        validated in
    let placed : get_elem? index.control_paths i ≡ some path =
      subst (λ k. get_elem? index.control_paths k ≡ some path) (omega arith)
        (validate_from-get index 0 i hdl_paths looped (ground (arith, enough)) there) in
    let (e, entry, named_so) =
      get-map (λ (e : Text × ℕ). e.0) index.controls_by_path i
        (ap (λ ps. get_elem? ps i) (sym paths) ∙ placed) in
    let found : find_control index path ≡ some e.1 =
      subst (λ x. find_control index x ≡ some e.1) named_so
        (get-find index.controls_by_path i e distinct entry) in
    (
      e.1,
      rw (named, found) refl,
      ap (λ cs. get_elem? cs i) order ∙ get-map-some (λ (e : Text × ℕ). e.1) _ i entry,
    )
