-- ===== src/Exports/Options/Examples.antt =====
-- export_store.py: options that are accepted.
use indigo_matter.Prelude.{some, pos, ◌≡◌, refl}
use indigo_matter.Python.{int, Fields, end, field, ok}
use indigo_matter.Python.Dict
use indigo_matter.Python.Dict.{get}
use indigo_matter.Ct.Bounds.{
  effective_ct_bounds, is_valid_ct_bound, option_ct_learned_min_mireds,
  option_ct_learned_max_mireds,
}
use indigo_matter.Exports.Options.{
  elem, validate_key, validate_pair, validate_ct_bounds, validate_options,
}
use indigo_matter.Exports.Options.Domain.{IsEffective, effective_ct_bounds-IsEffective}

abbrev lamp_options : Fields
lamp_options =
    field option_ct_learned_min_mireds (int (pos 215))
      (field option_ct_learned_max_mireds (int (pos 400)) end)

lamp_options_valid : validate_options lamp_options "colorTemperatureLight" ≡ ok tt
unfolding validate_options validate_key validate_ct_bounds validate_pair elem Dict.lookup
lamp_options_valid = refl

effective_ct_bounds-IsEffective_example :
    IsEffective
      (is_valid_ct_bound (get option_ct_learned_min_mireds lamp_options))
      (is_valid_ct_bound (get option_ct_learned_max_mireds lamp_options))
      (effective_ct_bounds (some lamp_options)).0
      (effective_ct_bounds (some lamp_options)).1
effective_ct_bounds-IsEffective_example =
    effective_ct_bounds-IsEffective lamp_options "colorTemperatureLight" lamp_options_valid
