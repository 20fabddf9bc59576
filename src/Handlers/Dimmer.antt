-- ===== src/Handlers/Dimmer.antt =====
-- The actions and the reports of a dimmer (level_control.py).
use indigo_matter.Prelude.{
  ℕ, ◌+◌, ◌-◌, String, Option, none, some, List, [], ◌∷◌, pos, ◌==◌, if◌then◌else◌,
}
use indigo_matter.Handlers.{cluster_on_off, cluster_level_control}
use indigo_matter.Handlers.Levels.{
  min, level_to_pct, pct_to_level, Action, turn_on, turn_off, toggle, set_brightness, brighten_by,
  dim_by, other_action, Device, MatterCommand, State, brightness_level,
}

onoff : Device → String → MatterCommand
onoff dev command = record {
  node_id = dev.node_id;
  endpoint = dev.endpoint_id;
  cluster = cluster_on_off;
  command = command;
  args = [];
}

unfoldable pub set_level : Device → ℕ → MatterCommand
set_level dev pct = record {
  node_id = dev.node_id;
  endpoint = dev.endpoint_id;
  cluster = cluster_level_control;
  command = "MoveToLevelWithOnOff";
  args =
      ("level", pos (pct_to_level pct))
      ∷ ("transitionTime", pos 0)
      ∷ ("optionsMask", pos 0)
      ∷ ("optionsOverride", pos 0)
      ∷ [];
}

unfoldable pub handle_indigo_action : Device → Action → Option MatterCommand
unfolding onoff
handle_indigo_action dev turn_on = some (onoff dev "On")
handle_indigo_action dev turn_off = some (onoff dev "Off")
handle_indigo_action dev toggle = some (onoff dev "Toggle")
handle_indigo_action dev (set_brightness value) = some (set_level dev value)
handle_indigo_action dev (brighten_by value) =
    some (set_level dev (min (dev.brightness + value) 100))
handle_indigo_action dev (dim_by value) = some (set_level dev (dev.brightness - value))
handle_indigo_action dev other_action = none

abbrev pub attr_current_level : ℕ
attr_current_level = 0x0000

unfoldable pub on_attribute_update : ℕ → Option ℕ → List State
on_attribute_update attribute_id none = []
on_attribute_update attribute_id (some value) =
    if attribute_id == attr_current_level then brightness_level (level_to_pct value) ∷ [] else []
