-- ===== src/Handlers/Covering.antt =====
-- The actions and the reports of a window covering (window_covering.py).
use indigo_matter.Prelude.{
  ℕ, ◌+◌, ◌-◌, String, Option, none, some, List, [], ◌∷◌, ℤ, ◌==◌, ltb, if◌then◌else◌,
}
use indigo_matter.Handlers.Levels.{
  min, lift_pct100ths_to_brightness, brightness_to_lift_pct100ths, Action, turn_on, turn_off,
  set_brightness, brighten_by, dim_by, Device, MatterCommand, State, on_off_state, brightness_level,
}

move : Device → String → List (String × ℤ) → MatterCommand
move dev command args = record {
  node_id = dev.node_id;
  endpoint = dev.endpoint_id;
  cluster = 0x0102;
  command = command;
  args = args;
}

unfoldable pub go_to : Device → ℕ → MatterCommand
unfolding move
go_to dev brightness =
    move dev "GoToLiftPercentage"
      (("liftPercent100thsValue", brightness_to_lift_pct100ths brightness) ∷ [])

unfoldable pub handle_indigo_action : Device → Action → Option MatterCommand
unfolding move
handle_indigo_action dev turn_on = some (move dev "UpOrOpen" [])
handle_indigo_action dev turn_off = some (move dev "DownOrClose" [])
handle_indigo_action dev (set_brightness value) = some (go_to dev value)
handle_indigo_action dev (brighten_by value) = some (go_to dev (min (dev.brightness + value) 100))
handle_indigo_action dev (dim_by value) = some (go_to dev (dev.brightness - value))
handle_indigo_action dev _ = none

abbrev pub attr_current_lift : ℕ
attr_current_lift = 0x000E

unfoldable pub on_attribute_update : ℕ → Option ℕ → List State
on_attribute_update attribute_id none = []
on_attribute_update attribute_id (some value) =
    let b = lift_pct100ths_to_brightness value in
    if attribute_id == attr_current_lift
    then brightness_level b ∷ on_off_state (ltb 0 b) ∷ []
    else []
