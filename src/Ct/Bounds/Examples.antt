-- ===== src/Ct/Bounds/Examples.antt =====
-- ct_bounds.py: the bounds of some exports.
use indigo_matter.Prelude.{some, pos, ◌≡◌, refl}
use indigo_matter.Python.{int, Fields, end, field}
use indigo_matter.Python.Dict
use indigo_matter.Ct.Bounds.{
  effective_ct_bounds, effective_ct_sources, wire_options, option_ct_min_mireds,
  option_ct_max_mireds, option_ct_learned_min_mireds, option_ct_learned_max_mireds,
  generic_min_mireds, generic_max_mireds,
}

-- A seeded range whose cool side was then learned.
abbrev strip_options : Fields
strip_options = field option_ct_min_mireds (int (pos 200)) (
    field option_ct_max_mireds (int (pos 400))
      (field option_ct_learned_min_mireds (int (pos 215)) end))

bounds_test : effective_ct_bounds (some strip_options) ≡ (pos 215, pos 400)
unfolding effective_ct_bounds indigo_matter.Ct.Bounds.side Dict.lookup
bounds_test = refl
