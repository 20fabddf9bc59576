-- ===== src/Exports/Options.antt =====
-- export_store.py: which options an export of each role may carry.
pub mod Domain
pub mod Examples
use indigo_matter.Prelude.{
  String, Bool, true, false, ◌&&◌, ◌||◌, not, List, [], ◌∷◌, ℤ, leb_ℤ, ltb_ℤ, str_eq, any, is_some,
  Option, none, some, if◌then◌else◌,
}
use indigo_matter.Python.{
  Json, bool, int, str, Fields, Result, ok, err, value_error, raise_if, ◌>>=◌, ◌>>◌, truthy,
}
use indigo_matter.Python.Dict.{get, has}
use indigo_matter.Ct.Bounds.{
  as_int, is_valid_ct_bound, generic_min_mireds, generic_max_mireds, ct_roles, option_ct_min_mireds,
  option_ct_max_mireds, option_ct_learned_min_mireds, option_ct_learned_max_mireds,
}

abbrev pub option_invert : String
option_invert = "invert"

abbrev pub option_state_key : String
option_state_key = "stateKey"

abbrev pub option_state_invert : String
option_state_invert = "stateInvert"

-- export_catalog.BINARY_SENSOR_ROLES
abbrev pub mappable_roles : List String
mappable_roles =
    "occupancySensor" ∷ "contactSensor" ∷ "waterLeakDetector" ∷ "waterFreezeDetector" ∷ "rainSensor"
    ∷ "smokeAlarm" ∷ "coAlarm" ∷ []

abbrev pub invertible_roles : List String
invertible_roles = "windowCovering" ∷ []

unfoldable pub elem : String → List String → Bool
elem role roles = any (str_eq role) roles

pub is_bool : Json → Bool
is_bool (bool b) = true
is_bool _ = false

pub is_nonempty_str : Json → Bool
unfolding truthy
is_nonempty_str (str s) = truthy (str s)
is_nonempty_str _ = false

-- `generic_min <= value <= generic_max`; the value is an `int` where the code gets here.
abbrev pub in_domain : Option ℤ → Bool
in_domain none = false
in_domain (some v) = leb_ℤ generic_min_mireds v && leb_ℤ v generic_max_mireds

-- `generic_min <= min_value < max_value <= generic_max`
abbrev pub is_range : Option ℤ → Option ℤ → Bool
is_range (some lo) (some hi) =
    leb_ℤ generic_min_mireds lo && (ltb_ℤ lo hi && leb_ℤ hi generic_max_mireds)
is_range _ _ = false

-- One round of the loop of `_validate_ct_bounds`.
unfoldable pub validate_pair : Fields → String → String → String → Bool → Result (Unit {0})
unfolding elem
validate_pair options role min_key max_key seed_pair =
    let has_min = has min_key options in
    let has_max = has max_key options in
    let min_value = get min_key options in
    let max_value = get max_key options in
    if not (has_min || has_max)
    then ok tt
    else if not (elem role ct_roles)
    then err value_error
    else if has_min && not (is_valid_ct_bound min_value)
    then err value_error
    else if has_max && not (is_valid_ct_bound max_value)
    then err value_error
    else if has_min && has_max
    then raise_if (not (is_range (as_int min_value) (as_int max_value))) value_error
    else if seed_pair
    then err value_error
    else raise_if (not (in_domain (as_int (if has_min then min_value else max_value)))) value_error

unfoldable pub validate_ct_bounds : Fields → String → Result (Unit {0})
validate_ct_bounds options role = do
  validate_pair options role option_ct_min_mireds option_ct_max_mireds true
  validate_pair options role option_ct_learned_min_mireds option_ct_learned_max_mireds false

-- One of the three checks of an option: its value has the right type, and the role may carry it.
unfoldable pub validate_key :
    Fields → String → String → (Json → Bool) → List String → Result (Unit {0})
unfolding elem
validate_key options role key has_type roles =
    if has key options
    then (if has_type (get key options)
        then raise_if (not (elem role roles)) value_error
        else err value_error)
    else ok tt

unfoldable pub validate_options : Fields → String → Result (Unit {0})
validate_options options role = do
  validate_key options role option_invert is_bool invertible_roles
  validate_key options role option_state_key is_nonempty_str mappable_roles
  validate_key options role option_state_invert is_bool mappable_roles
  validate_ct_bounds options role
