-- ===== src/Handlers/Mireds.antt =====
-- Mireds and Kelvin (mired_units.py), and the colour temperature of a colour light
-- (color_control.py): the report of it, and the command that asks for it.
use mathlib.Core.Path.{subst}
use indigo_matter.Prelude.{
  ℕ, ap, ◌∙◌, List, is_some, ◌&&◌, ◌||◌, not, ◌<◌, ◌≤◌, ◌≡◌, refl, Bool, true, false, Option, none,
  some, [], ◌∷◌, pos, ◌==◌, if◌then◌else◌, arith, leb, leb→le, ltb, ltb→lt, not_ltb→le, Bool-cases,
  inl, inr, sym, some_injective, zero, suc,
}
use indigo_matter.Python.Table
use indigo_matter.Python.Table.{text_key}
use indigo_matter.Python.Round.{
  round_quotient, round_quotient_lem, round_quotient-IsNearest, IsNearest,
}
use native.Mathlib.Nat.{mul-le-mul}
use indigo_matter.Handlers.{cluster_color_control}
use indigo_matter.Handlers.Dimmer.{set_level}
use indigo_matter.Handlers.Levels.{Device, MatterCommand}

unfoldable pub mireds_to_kelvin : ℕ → ℕ
mireds_to_kelvin mireds = if mireds == 0 then 0 else round_quotient 1000000 mireds

-- Of a whole number of Kelvin, as a report leaves it.
unfoldable pub kelvin_to_mireds : ℕ → ℕ
kelvin_to_mireds kelvin = if kelvin == 0 then 0 else round_quotient 1000000 kelvin

-- The report of ColorTemperatureMireds; the flag says that the device has a `whiteTemperature`.
unfoldable pub color_temp_update : Bool → Option ℕ → Option ℕ
color_temp_update _ none = none
color_temp_update false (some value) = none
color_temp_update true (some value) = some (mireds_to_kelvin value)

unfoldable pub ct_command : Device → ℕ → MatterCommand
ct_command dev kelvin = record {
  node_id = dev.node_id;
  endpoint = dev.endpoint_id;
  cluster = cluster_color_control;
  command = "MoveToColorTemperature";
  args =
      ("colorTemperatureMireds", pos (kelvin_to_mireds kelvin))
      ∷ ("transitionTime", pos 0)
      ∷ ("optionsMask", pos 0)
      ∷ ("optionsOverride", pos 0)
      ∷ [];
}

-- A `whiteTemperature` that is neither absent nor 0.
abbrev nonzero : Option ℕ → Option ℕ
nonzero none = none
nonzero (some k) = if k == 0 then none else some k

-- The temperature of the white side: the one asked for, or the stored one, or 2700.
unfoldable pub white_kelvin : Option ℕ → ℕ → ℕ
white_kelvin white_temp stored = elim (nonzero white_temp) [
  | some k ↦ k
  | none ↦ if stored == 0 then 2700 else stored
]

-- The W slider's level, where it is asked for.
unfoldable pub level_commands : Device → Option ℕ → List MatterCommand
level_commands dev none = []
level_commands dev (some white_level) = set_level dev white_level ∷ []

-- `_set_color`, as far as the white side goes: whether red, green or blue is asked for, the
-- `whiteTemperature` and the `whiteLevel` that are asked for, in whole numbers, and the stored
-- temperature, or 0. Where there is no result, the method goes on to a colour.
unfoldable pub set_color : Device → Bool → Option ℕ → Option ℕ → ℕ → Option (List MatterCommand)
set_color dev rgb_requested white_temp white_level stored =
    if (is_some (nonzero white_temp) || is_some white_level) && not rgb_requested
    then some (ct_command dev (white_kelvin white_temp stored) ∷ level_commands dev white_level)
    else elim (nonzero white_temp) [ some k ↦ some (ct_command dev k ∷ []) | none ↦ none ]

-- Below a thousand mireds a temperature has more Kelvin than mireds.
thousand : (k : ℕ) → 1000 ≤ k → k ≤ 1000 → k ≡ 1000
thousand k h l = omega arith

more_kelvin : (m k : ℕ) → m ≤ 999 → IsNearest 1000000 m k → m < k
unfolding IsNearest
more_kelvin m k h near = elim (Bool-cases (ltb m k)) [
  | inl more ↦ ltb→lt m k more
  | inr less ↦ omega (arith, near, mul-le-mul (not_ltb→le m k less) h)
]

at_thousand : (k : ℕ) → IsNearest 1000000 1000 k → round_quotient 1000000 k ≡ 1000
unfolding IsNearest
at_thousand k near =
    rw (thousand k (omega (arith, near)) (omega (arith, near)))
      (round_quotient_lem 1000000 1000 1000 (omega arith) (omega arith))

at_end_of_range : (m k : ℕ) → m ≡ 1000 → IsNearest 1000000 m k → round_quotient 1000000 k ≡ m
at_end_of_range m k e near = rw e (at_thousand k (rw (sym e) near))

round_quotient-round_quotient :
    (m k : ℕ) → m ≤ 1000 → IsNearest 1000000 m k → round_quotient 1000000 k ≡ m
unfolding IsNearest
round_quotient-round_quotient m k h near = elim (Bool-cases (leb m 999)) [
  | inl below ↦
      let more = more_kelvin m k (leb→le m 999 below) near in
      round_quotient_lem 1000000 k m (omega (arith, near, more)) (omega (arith, near, more))
  | inr at_end ↦ at_end_of_range m k (thousand m (ground arith) h) near
]

some_kelvin : (m k : ℕ) → m ≤ 1000 → IsNearest 1000000 m k → 1 ≤ k
unfolding IsNearest
some_kelvin m zero h near = omega (arith, near)
some_kelvin m (suc k) h near = omega arith

reported_kelvin : (m : ℕ) → 1 ≤ m → m ≤ 1000 → 1 ≤ mireds_to_kelvin m
unfolding mireds_to_kelvin
reported_kelvin zero h l = absurd (omega arith)
reported_kelvin (suc m) h l =
    let near = round_quotient-IsNearest 1000000 (suc m) (omega arith) in
    ground (arith, some_kelvin (suc m) (round_quotient 1000000 (suc m)) l near)

pub kelvin_to_mireds-mireds_to_kelvin :
    (m : ℕ) → m ≤ 1000 → kelvin_to_mireds (mireds_to_kelvin m) ≡ m
unfolding mireds_to_kelvin kelvin_to_mireds
kelvin_to_mireds-mireds_to_kelvin zero h = refl
kelvin_to_mireds-mireds_to_kelvin (suc m) h =
    let k = round_quotient 1000000 (suc m) in
    let near = round_quotient-IsNearest 1000000 (suc m) (omega arith) in
    ground (arith, some_kelvin (suc m) k h near, round_quotient-round_quotient (suc m) k h near)

-- The commands begin with a MoveToColorTemperature of the ColorControl cluster of the device, to this
-- number of mireds, and go on with these.
pub IsMoved : Device → ℕ → List MatterCommand → Option (List MatterCommand) → Type 0
IsMoved dev m rest handled =
    (command : MatterCommand) × (handled ≡ some (command ∷ rest))
    × (command.node_id ≡ dev.node_id)
    × (command.endpoint ≡ dev.endpoint_id)
    × (command.cluster ≡ 0x0300)
    × (command.command ≡ "MoveToColorTemperature")
    × (Table.lookup "colorTemperatureMireds" command.args ≡ some (pos m))

ct_command-IsMoved :
    (dev : Device) (m k : ℕ) (rest : List MatterCommand) (handled : Option (List MatterCommand))
    → kelvin_to_mireds k ≡ m
    → handled ≡ some (ct_command dev k ∷ rest)
    → IsMoved dev m rest handled
unfolding IsMoved ct_command Table.lookup
ct_command-IsMoved dev m k rest handled e h =
    (ct_command dev k, h, refl, refl, refl, refl, rw e refl)

-- Kelvin that are not 0 are what is asked for, or the stored ones.
asked_kelvin :
    (dev : Device) (k stored : ℕ) (rgb_requested : Bool) (white_level : Option ℕ)
    → 1 ≤ k
    → set_color dev rgb_requested (some k) white_level stored
      ≡ some (ct_command dev k ∷ (if rgb_requested then [] else level_commands dev white_level))
unfolding set_color white_kelvin
asked_kelvin dev zero stored rgb_requested white_level h = absurd (omega arith)
asked_kelvin dev (suc k) stored true white_level h = ground arith
asked_kelvin dev (suc k) stored false white_level h = ground arith

stored_kelvin :
    (dev : Device) (k white_level : ℕ)
    → 1 ≤ k
    → set_color dev false none (some white_level) k
      ≡ some (ct_command dev k ∷ set_level dev white_level ∷ [])
unfolding set_color white_kelvin level_commands
stored_kelvin dev zero white_level h = absurd (omega arith)
stored_kelvin dev (suc k) white_level h = ground arith

-- A colour temperature of 1 to 1000 mireds comes back as it was reported: where the report of it sets a
-- number of Kelvin, asking for those Kelvin sends a MoveToColorTemperature of the same number of mireds
-- to the device, whatever else is asked for, and so does a move of the W slider alone while those
-- Kelvin are stored, which then also sets the level.
pub set_color-color_temp_update :
    (dev : Device) (m k stored white_level : ℕ) (rgb_requested : Bool) (level : Option ℕ)
    → 1 ≤ m
    → m ≤ 1000
    → color_temp_update true (some m) ≡ some k
    → IsMoved dev m
        (if rgb_requested then [] else level_commands dev level)
        (set_color dev rgb_requested (some k) level stored)
      × IsMoved dev m
          (set_level dev white_level ∷ [])
          (set_color dev false none (some white_level) k)
unfolding color_temp_update
set_color-color_temp_update dev m k stored white_level rgb_requested level h l reported =
    let same = some_injective (mireds_to_kelvin m) k reported in
    let back = ap kelvin_to_mireds (sym same) ∙ kelvin_to_mireds-mireds_to_kelvin m l in
    let positive = subst (λ (j : ℕ). 1 ≤ j) same (reported_kelvin m h l) in
    (
      ct_command-IsMoved dev m k _ _ back (asked_kelvin dev k stored rgb_requested level positive),
      ct_command-IsMoved dev m k _ _ back (stored_kelvin dev k white_level positive),
    )
