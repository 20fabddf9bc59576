-- ===== src/Handlers/RoundTrip.antt =====
-- A brightness asked for, and the report of the level that it was sent as.
use indigo_matter.Prelude.{
  ℕ, ◌+◌, ◌-◌, ◌*◌, ◌≤◌, ◌≡◌, refl, String, Option, none, some, List, [], ◌∷◌, pos, ltb, arith, leb,
  leb→le, Bool-cases, inl, inr, some_injective, sym, ◌∙◌,
}
use indigo_matter.Python.Table
use indigo_matter.Python.Table.{text_key}
use indigo_matter.Python.Round.{
  round_quotient, round_quotient_lem, round_quotient-IsNearest, IsNearest,
}
use indigo_matter.Handlers.Levels.{
  min, level_to_pct, pct_to_level, lift_pct100ths_to_brightness, brightness_to_lift_pct100ths,
  Action, turn_on, turn_off, toggle, set_brightness, brighten_by, dim_by, other_action, Device,
  MatterCommand, State, on_off_state, brightness_level,
}
use indigo_matter.Handlers.Dimmer
use indigo_matter.Handlers.Covering

-- The quotient by 254 of the rounded quotient of 254, as long as it is not clamped.
nearest_back :
    (pct level : ℕ) → IsNearest (pct * 254) 100 level → round_quotient (level * 100) 254 ≡ pct
unfolding IsNearest
nearest_back pct level near =
    round_quotient_lem (level * 100) 254 pct (omega (arith, near)) (omega (arith, near))

clamped :
    (pct level : ℕ)
    → IsNearest (pct * 254) 100 level
    → min 100 (round_quotient (min 254 level * 100) 254) ≡ min 100 pct
unfolding IsNearest
clamped pct level near = elim (Bool-cases (leb 254 level)) [
  | inl over ↦
      rw (over, round_quotient_lem 25400 254 100 (omega arith) (omega arith))
        (ground (arith, leb→le 254 level over, near))
  | inr within ↦ rw (within, nearest_back pct level near) refl
]

level_to_pct-pct_to_level : (pct : ℕ) → level_to_pct (pct_to_level pct) ≡ min 100 pct
unfolding level_to_pct pct_to_level
level_to_pct-pct_to_level pct =
    clamped pct (round_quotient (pct * 254) 100)
      (round_quotient-IsNearest (pct * 254) 100 (omega arith))

lift_to_brightness :
    (b : ℕ)
    → b ≤ 100
    → (brightness_to_lift_pct100ths b ≡ pos ((100 - b) * 100))
      × (lift_pct100ths_to_brightness ((100 - b) * 100) ≡ b)
unfolding lift_pct100ths_to_brightness brightness_to_lift_pct100ths
lift_to_brightness b h = (
  ground arith,
  ground (arith, round_quotient_lem ((100 - b) * 100) 100 (100 - b) (omega arith) (omega arith)),
)

-- The brightness that an action of a device of this brightness asks for.
unfoldable pub asked : ℕ → Action → Option ℕ
asked brightness (set_brightness value) = some value
asked brightness (brighten_by value) = some (min (brightness + value) 100)
asked brightness (dim_by value) = some (brightness - value)
asked brightness _ = none

-- The command of this name is sent to the cluster of the device, with a level under the key, and a
-- report of the level leaves the states.
unfoldable pub IsAnswered :
    Device
    → Option MatterCommand
    → ℕ
    → String
    → String
    → (Option ℕ → List State)
    → List State
    → Type 0
IsAnswered dev handled cluster name key report states =
    (command : MatterCommand) × (handled ≡ some command)
    × (command.cluster ≡ cluster)
    × (command.command ≡ name)
    × (command.node_id ≡ dev.node_id)
    × (command.endpoint ≡ dev.endpoint_id)
    × ((level : ℕ) × (Table.lookup key command.args ≡ some (pos level))
        × (report (some level) ≡ states))

sets_level :
    (dev : Device) (action : Action) (b : ℕ)
    → asked dev.brightness action ≡ some b
    → Dimmer.handle_indigo_action dev action ≡ some (Dimmer.set_level dev b)
unfolding asked Dimmer.handle_indigo_action
sets_level dev (set_brightness value) b h = rw (some_injective value b h) refl
sets_level dev (brighten_by value) b h = rw (sym (some_injective _ b h)) refl
sets_level dev (dim_by value) b h = rw (sym (some_injective _ b h)) refl
sets_level dev turn_on b h = cc
sets_level dev turn_off b h = cc
sets_level dev toggle b h = cc
sets_level dev other_action b h = cc

moves_lift :
    (dev : Device) (action : Action) (b : ℕ)
    → asked dev.brightness action ≡ some b
    → Covering.handle_indigo_action dev action ≡ some (Covering.go_to dev b)
unfolding asked Covering.handle_indigo_action
moves_lift dev (set_brightness value) b h = rw (some_injective value b h) refl
moves_lift dev (brighten_by value) b h = rw (sym (some_injective _ b h)) refl
moves_lift dev (dim_by value) b h = rw (sym (some_injective _ b h)) refl
moves_lift dev turn_on b h = cc
moves_lift dev turn_off b h = cc
moves_lift dev toggle b h = cc
moves_lift dev other_action b h = cc

-- Of at most 100, nothing is clamped.
level_returns : (b : ℕ) → b ≤ 100 → level_to_pct (pct_to_level b) ≡ b
level_returns b h = level_to_pct-pct_to_level b ∙ ground arith

dimmer-IsAnswered :
    (dev : Device) (action : Action) (b : ℕ)
    → asked dev.brightness action ≡ some b
    → b ≤ 100
    → IsAnswered dev
        (Dimmer.handle_indigo_action dev action)
        0x0008
        "MoveToLevelWithOnOff"
        "level"
        (Dimmer.on_attribute_update Dimmer.attr_current_level)
        (brightness_level b ∷ [])
unfolding IsAnswered Dimmer.set_level Dimmer.on_attribute_update Table.lookup
dimmer-IsAnswered dev action b h k = (
  Dimmer.set_level dev b,
  sets_level dev action b h,
  refl,
  refl,
  refl,
  refl,
  (pct_to_level b, refl, rw (level_returns b k) refl),
)

covering-IsAnswered :
    (dev : Device) (action : Action) (b : ℕ)
    → asked dev.brightness action ≡ some b
    → b ≤ 100
    → IsAnswered dev
        (Covering.handle_indigo_action dev action)
        0x0102
        "GoToLiftPercentage"
        "liftPercent100thsValue"
        (Covering.on_attribute_update Covering.attr_current_lift)
        (brightness_level b ∷ on_off_state (ltb 0 b) ∷ [])
unfolding IsAnswered Covering.go_to Covering.on_attribute_update Table.lookup
covering-IsAnswered dev action b h k =
    let lift = lift_to_brightness b k in
    (
      Covering.go_to dev b,
      moves_lift dev action b h,
      refl,
      refl,
      refl,
      refl,
      ((100 - b) * 100, rw lift.0 refl, rw lift.1 refl),
    )

-- A brightness of at most 100 that an action asks a dimmer or a window covering for is sent to it as
-- a MoveToLevelWithOnOff of its LevelControl cluster (a dimmer) or a GoToLiftPercentage of its
-- WindowCovering cluster (a covering), with a level whose report sets that brightness; the report of a covering also sets it on if the
-- brightness is not 0, and off if it is.
pub actions-IsAnswered :
    (dev : Device) (action : Action) (b : ℕ)
    → asked dev.brightness action ≡ some b
    → b ≤ 100
    → IsAnswered dev
        (Dimmer.handle_indigo_action dev action)
        0x0008
        "MoveToLevelWithOnOff"
        "level"
        (Dimmer.on_attribute_update Dimmer.attr_current_level)
        (brightness_level b ∷ [])
      × IsAnswered dev
          (Covering.handle_indigo_action dev action)
          0x0102
          "GoToLiftPercentage"
          "liftPercent100thsValue"
          (Covering.on_attribute_update Covering.attr_current_lift)
          (brightness_level b ∷ on_off_state (ltb 0 b) ∷ [])
actions-IsAnswered dev action b h k =
    (dimmer-IsAnswered dev action b h k, covering-IsAnswered dev action b h k)
