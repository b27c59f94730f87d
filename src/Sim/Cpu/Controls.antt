-- ===== src/Sim/Cpu/Controls.antt =====
-- The index of the controls: BuildControlIndex, ValidateAgainstHdl, ResolveControl and AllControlPaths
-- of sim/src/cpu.cpp. A control is a reference, and the paths of the hardware model are an argument.
pub mod Index
use irata.Prelude.{
  Text, same_text, ℕ, suc, Bool, true, false, not, Option, none, some, List, [], ◌∷◌, ◌++◌, length,
  get_elem?, null, ltb, Result, ok, err, ◌>>=◌, ◌>>◌, throw_if,
}
use irata.Prelude.Maps.{find_key}

pub data ControlError : Type 0 where
  duplicate_control_path fewer_controls control_not_found order_mismatch : ControlError
  path_empty path_not_found : ControlError

-- A component, with the control that it is, if it is one.
pub record Component : Type 0 where
  pub path : Text
  pub control : Option ℕ

pub record ControlIndex : Type 0 where
  pub controls_by_path : List (Text × ℕ)
  pub control_paths : List Text
  pub control_order : List ℕ

abbrev pub find_control : ControlIndex → Text → Option ℕ
find_control index path = find_key same_text path index.controls_by_path

-- The body of the loop, for a control.
unfoldable pub add_control : Text → ℕ → ControlIndex → Result ControlError ControlIndex
add_control path control index = elim (find_control index path) [
  | some there ↦ err duplicate_control_path
  | none ↦ ok (record {
    controls_by_path = index.controls_by_path ++ (path, control) ∷ [];
    control_paths = index.control_paths ++ path ∷ [];
    control_order = index.control_order ++ control ∷ [];
  })
]

unfoldable pub add_component : Component → ControlIndex → Result ControlError ControlIndex
unfolding add_control
add_component component index = elim component.control [
  | none ↦ ok index
  | some control ↦ add_control component.path control index
]

unfoldable pub add_components : List Component → ControlIndex → Result ControlError ControlIndex
unfolding add_component
add_components [] index = ok index
add_components (c ∷ cs) index = (add_component c index >>= λ next. add_components cs next)

-- `BuildControlIndex`
unfoldable pub build_control_index : List Component → Result ControlError ControlIndex
unfolding add_components
build_control_index components =
    add_components components
      (record { controls_by_path = []; control_paths = []; control_order = [] })

abbrev pub is_found : Option ℕ → Bool
is_found none = false
is_found (some control) = true

-- Whether a control that the index has at a place has another path.
abbrev pub is_other : Option Text → Text → Bool
is_other none path = false
is_other (some there) path = not (same_text there path)

-- The loop over the paths of the hardware model, from the `i`-th on.
unfoldable pub validate_from : ControlIndex → ℕ → List Text → Result ControlError (Unit {0})
validate_from index i [] = ok tt
validate_from index i (path ∷ paths) =
    throw_if (not (is_found (find_control index path))) control_not_found
    >> (throw_if (is_other (get_elem? index.control_paths i) path) order_mismatch
        >> validate_from index (suc i) paths)

-- `ValidateAgainstHdl`
unfoldable pub validate_against_hdl : List Text → ControlIndex → Result ControlError (Unit {0})
unfolding validate_from
validate_against_hdl hdl_paths index =
    throw_if (ltb (length index.control_paths) (length hdl_paths)) fewer_controls
    >> validate_from index 0 hdl_paths

-- `ResolveControl`
unfoldable pub resolve_control : ControlIndex → Text → Result ControlError ℕ
resolve_control index path =
    throw_if (null path) path_empty
    >> elim (find_control index path) [ none ↦ err path_not_found | some control ↦ ok control ]
