-- ===== src/Handlers/Levels.antt =====
-- The levels of dimmers and window coverings (level_control.py and window_covering.py): the
-- conversions of brightness, and the actions, commands and states that their handlers
-- share. Brightness and action values are natural numbers.
use indigo_matter.Prelude.{
  ℕ, ◌+◌, ◌-◌, ◌*◌, String, Bool, List, ℤ, pos, leb, if◌then◌else◌, sub_ℕ, negsuc,
}
use indigo_matter.Python.Round.{round_quotient}

abbrev pub min : ℕ → ℕ → ℕ
min a b = if leb a b then a else b

-- No result is below 0, so `max(0, …)` leaves it alone.
unfoldable pub level_to_pct : ℕ → ℕ
level_to_pct level = min 100 (round_quotient (level * 100) 254)

unfoldable pub pct_to_level : ℕ → ℕ
pct_to_level pct = min 254 (round_quotient (pct * 254) 100)

-- The subtraction stops at 0, as `max(0, …)` does.
unfoldable pub lift_pct100ths_to_brightness : ℕ → ℕ
lift_pct100ths_to_brightness value = min 100 (100 - round_quotient value 100)

-- The integer, times 100.
abbrev times_100 : ℤ → ℤ
times_100 (pos n) = pos (n * 100)
times_100 (negsuc n) = negsuc (n * 100 + 99)

unfoldable pub brightness_to_lift_pct100ths : ℕ → ℤ
brightness_to_lift_pct100ths brightness = times_100 (sub_ℕ 100 brightness)

-- The kinds of `indigo.kDeviceAction`, with the value of the action.
pub data Action : Type 0 where
  turn_on turn_off toggle : Action
  set_brightness brighten_by dim_by : ℕ → Action
  other_action : Action

pub record Device : Type 0 where
  pub node_id : ℕ
  pub endpoint_id : ℕ
  pub brightness : ℕ

pub record MatterCommand : Type 0 where
  pub node_id : ℕ
  pub endpoint : ℕ
  pub cluster : ℕ
  pub command : String
  pub args : List (String × ℤ)

pub data State : Type 0 where
  on_off_state : Bool → State
  brightness_level : ℕ → State
