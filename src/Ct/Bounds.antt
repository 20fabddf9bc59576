-- ===== src/Ct/Bounds.antt =====
-- ct_bounds.py: which of the stored bounds of an export is in force, and what reaches the wire.
pub mod Precedence
pub mod Wire
pub mod Examples
use indigo_matter.Prelude.{
  String, Bool, true, false, ◌||◌, Option, none, some, List, [], ◌∷◌, ℤ, pos, str_eq, is_some, any,
  if◌then◌else◌,
}
use indigo_matter.Python.{Json, int, Fields, end}
use indigo_matter.Python.Dict
use indigo_matter.Python.Dict.{get, has}

abbrev pub generic_min_mireds : ℤ
generic_min_mireds = pos 153

abbrev pub generic_max_mireds : ℤ
generic_max_mireds = pos 500

abbrev pub ct_roles : List String
ct_roles = "colorTemperatureLight" ∷ "extendedColorLight" ∷ []

abbrev pub option_ct_min_mireds : String
option_ct_min_mireds = "ctMinMireds"

abbrev pub option_ct_max_mireds : String
option_ct_max_mireds = "ctMaxMireds"

abbrev pub option_ct_learned_min_mireds : String
option_ct_learned_min_mireds = "ctLearnedMinMireds"

abbrev pub option_ct_learned_max_mireds : String
option_ct_learned_max_mireds = "ctLearnedMaxMireds"

abbrev pub stored_keys : List String
stored_keys =
    option_ct_min_mireds ∷ option_ct_max_mireds ∷ option_ct_learned_min_mireds
    ∷ option_ct_learned_max_mireds ∷ []

-- An `int` that is no `bool`, with its value.
abbrev pub as_int : Json → Option ℤ
as_int (int z) = some z
as_int _ = none

abbrev pub is_valid_ct_bound : Json → Bool
is_valid_ct_bound v = is_some (as_int v)

unfoldable pub side : Fields → String → String → ℤ → ℤ
side options learned_key seed_key generic = elim (as_int (get learned_key options)) [
  | some value ↦ value
  | none ↦ elim (as_int (get seed_key options)) [ some value ↦ value | none ↦ generic ]
]

-- `options or {}`
abbrev pub or_empty : Option Fields → Fields
or_empty none = end
or_empty (some options) = options

unfoldable pub effective_ct_bounds : Option Fields → ℤ × ℤ
effective_ct_bounds options = (
  side (or_empty options) option_ct_learned_min_mireds option_ct_min_mireds generic_min_mireds,
  side (or_empty options) option_ct_learned_max_mireds option_ct_max_mireds generic_max_mireds,
)

pub data Source : Type 0 where
  learned seed generic : Source

unfoldable pub side_source : Fields → String → String → Source
side_source options learned_key seed_key =
    if is_valid_ct_bound (get learned_key options)
    then learned
    else if is_valid_ct_bound (get seed_key options)
    then seed
    else generic

unfoldable pub effective_ct_sources : Option Fields → Source × Source
effective_ct_sources options = (
  side_source (or_empty options) option_ct_learned_min_mireds option_ct_min_mireds,
  side_source (or_empty options) option_ct_learned_max_mireds option_ct_max_mireds,
)

unfoldable pub has_stored_ct_bounds : Option Fields → Bool
has_stored_ct_bounds options = any (λ key. has key (or_empty options)) stored_keys

unfoldable pub wire_options : Option Fields → Fields
wire_options options =
    let result = Dict.without stored_keys (or_empty options) in
    let (min_mireds, max_mireds) = effective_ct_bounds options in
    if has_stored_ct_bounds options
    then Dict.insert option_ct_max_mireds (int max_mireds)
        (Dict.insert option_ct_min_mireds (int min_mireds) result)
    else result
