-- ===== src/Handlers/Examples.antt =====
-- A dimmable light with a meter, a fan, a blind, and the theorems at them.
use indigo_matter.Prelude.{none, false, some, [], ◌∷◌, ◌≡◌, refl, true, All, arith}
use indigo_matter.Python.Table.{text_key}
use indigo_matter.Python.Round.{round_quotient}
use indigo_matter.Handlers.{NodeInfo, EndpointInfo, handlers_for_endpoint, default_handlers}
use indigo_matter.Handlers.Levels.{Device, brighten_by, brightness_level, on_off_state}
use indigo_matter.Handlers.Lighting.{lighting_types, lighting_type, handlers_for_endpoint_lem}
use indigo_matter.Handlers.Lookup.{IsDriven}
use indigo_matter.Handlers.RoundTrip.{asked, IsAnswered, actions-IsAnswered}
use indigo_matter.Handlers.Mireds.{
  mireds_to_kelvin, kelvin_to_mireds, color_temp_update, set_color, level_commands, IsMoved,
  set_color-color_temp_update,
}
use indigo_matter.Handlers.Dimmer
use indigo_matter.Handlers.Dimmer.{set_level}
use indigo_matter.Handlers.Covering

abbrev lamp : NodeInfo
lamp = record { node_id = 5; suggested_name = ""; vendor_name = "Acme"; product_name = "Lamp" }

-- OnOff, LevelControl and ElectricalPowerMeasurement.
abbrev dimmable : EndpointInfo
dimmable = record { endpoint_id = 1; cluster_ids = 0x0006 ∷ 0x0008 ∷ 0x0090 ∷ [] }

handlers_for_endpoint_lem_example :
    (lighting_types (handlers_for_endpoint default_handlers lamp dimmable) ≡ lighting_type dimmable)
    × All (IsDriven lamp dimmable) (handlers_for_endpoint default_handlers lamp dimmable)
handlers_for_endpoint_lem_example = handlers_for_endpoint_lem lamp dimmable

abbrev half : Device
half = record { node_id = 5; endpoint_id = 1; brightness = 50 }

actions-IsAnswered_example :
    IsAnswered half
      (Dimmer.handle_indigo_action half (brighten_by 13))
      0x0008
      "MoveToLevelWithOnOff"
      "level"
      (Dimmer.on_attribute_update Dimmer.attr_current_level)
      (brightness_level 63 ∷ [])
    × IsAnswered half
        (Covering.handle_indigo_action half (brighten_by 13))
        0x0102
        "GoToLiftPercentage"
        "liftPercent100thsValue"
        (Covering.on_attribute_update Covering.attr_current_lift)
        (brightness_level 63 ∷ on_off_state true ∷ [])
unfolding asked
actions-IsAnswered_example = actions-IsAnswered half (brighten_by 13) 63 refl (omega arith)

set_color-color_temp_update_example :
    IsMoved half 370 (set_level half 80 ∷ []) (set_color half false (some 2703) (some 80) 0)
    × IsMoved half 370 (set_level half 40 ∷ []) (set_color half false none (some 40) 2703)
unfolding color_temp_update mireds_to_kelvin round_quotient level_commands
set_color-color_temp_update_example =
    set_color-color_temp_update half 370 2703 0 40 false (some 80) (omega arith) (omega arith) refl

-- The other way round, a whole number of Kelvin does not return within one.
daylight_drifts : mireds_to_kelvin (kelvin_to_mireds 6500) ≡ 6494
unfolding mireds_to_kelvin kelvin_to_mireds round_quotient
daylight_drifts = refl
