-- ===== src/Exports/Entry/Examples.antt =====
-- export_store.py: an exported lamp.
use indigo_matter.Prelude.{true, none, some, pos, ◌≡◌, refl}
use indigo_matter.Python.{int, end, field, ok}
use indigo_matter.Python.Dict
use indigo_matter.Ct.Bounds.{option_ct_learned_min_mireds}
use indigo_matter.Exports.Options.{
  elem, validate_key, validate_pair, validate_ct_bounds, validate_options,
}
use indigo_matter.Exports.Entry.{Entry, roles}
use indigo_matter.Exports.Entry.RoundTrip.{IsLawful, IsNamed}

abbrev pub lamp : Entry
lamp = record {
  indigo_device_id = pos 17;
  role = "colorTemperatureLight";
  name_override = some "Strip";
  options = field option_ct_learned_min_mireds (int (pos 215)) end;
  published_as = none;
}

lamp_options : validate_options lamp.options lamp.role ≡ ok tt
unfolding validate_options validate_key validate_ct_bounds validate_pair elem Dict.lookup
lamp_options = refl

lamp_role : elem lamp.role roles ≡ true
unfolding elem
lamp_role = refl

pub lamp-IsLawful : IsLawful lamp
lamp-IsLawful = record { published = refl; options = lamp_options }

pub lamp-IsNamed : IsNamed lamp
lamp-IsNamed = record { known = lamp_role; named = λ h. absurd cc }
