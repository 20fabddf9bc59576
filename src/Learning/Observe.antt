-- ===== src/Learning/Observe.antt =====
-- ct_learner.py, `CTBoundsLearner`: commanded references, shortfall streaks, and the readings that
-- complete them. Times are in milliseconds of the monotonic clock, read once in each call.
pub mod Evidence
pub mod Dispatches
pub mod Confirmed
pub mod Examples
use indigo_matter.Prelude.{
  ℕ, ◌+◌, String, Bool, true, false, ◌&&◌, not, Option, none, some, List, ℤ, abs, ◌-ℤ◌, ltb, leb,
  ◌==◌, ltb_ℤ, if◌then◌else◌,
}
use indigo_matter.Python.{Json}
use indigo_matter.Python.Table
use indigo_matter.Python.Table.{Table, int_key}
use indigo_matter.Ct.Bounds.{effective_ct_bounds, ct_roles}
use indigo_matter.Exports.Options.{elem}
use indigo_matter.Exports.Entry.{Entry}
use indigo_matter.Exports.Store.{Flush}
use indigo_matter.Learning.Adopt.{Side, cool, warm, World, adopt}
use indigo_matter.Prelude.{pos}

-- FRESHNESS_WINDOW_SECONDS
abbrev pub freshness_window : ℕ
freshness_window = 15000

abbrev pub shortfall_threshold_mireds : ℕ
shortfall_threshold_mireds = 10

abbrev pub repeat_tolerance_mireds : ℕ
repeat_tolerance_mireds = 1

-- MIN_CONFIRMATION_GAP_SECONDS
abbrev pub min_confirmation_gap : ℕ
min_confirmation_gap = 2000

pub record Commanded : Type 0 where
  pub mireds : ℤ
  pub at : ℕ

pub record Pending : Type 0 where
  pub side : Side
  pub mireds : ℤ
  pub commanded_at : ℕ
  pub started_at : ℕ

pub record Learner : Type 0 where
  pub commanded : Table ℤ Commanded
  pub pending : Table ℤ Pending

unfoldable pub forget : ℤ → Learner → Learner
forget device_id learner = record {
  commanded = Table.remove device_id learner.commanded;
  pending = Table.remove device_id learner.pending;
}

unfoldable pub record_commanded : ℤ → ℤ → ℕ → Learner → Learner
record_commanded device_id mireds now learner = record learner {
  commanded = Table.insert device_id (record { mireds = mireds; at = now }) learner.commanded;
}

abbrev pub same_side : Side → Side → Bool
same_side cool cool = true
same_side warm warm = true
same_side _ _ = false

-- The side on which an answer falls short of what was asked.
abbrev pub side_of : ℤ → Side
side_of delta = if ltb_ℤ delta (pos 0) then warm else cool

-- `self._pending.pop(device_id, None)`
pub drop_pending : ℤ → Learner → Learner
drop_pending device_id learner = record learner { pending = Table.remove device_id learner.pending }

pub set_pending : ℤ → Side → ℤ → ℕ → ℕ → Learner → Learner
set_pending device_id side mireds commanded_at now learner = record learner {
  pending =
      Table.insert device_id
        (record { side = side; mireds = mireds; commanded_at = commanded_at; started_at = now })
        learner.pending;
}

-- Does a reading repeat the streak in progress?
pub repeats : Side → ℤ → Option Pending → Bool
repeats side mireds none = false
repeats side mireds (some p) =
    same_side p.side side && leb (abs (p.mireds -ℤ mireds)) repeat_tolerance_mireds

-- A repeat that is no second confirmation: it answers the dispatch that started the streak, or
-- comes too soon after the streak started.
pub is_inert : ℕ → ℕ → Option Pending → Bool
is_inert commanded_at now none = false
is_inert commanded_at now (some p) =
    if commanded_at == p.commanded_at then true else ltb now (p.started_at + min_confirmation_gap)

module _ (dumps : Json → String) (flush : Flush) where
  -- A reading within the bounds that falls short of a fresh reference.
  pub shortfall : Entry → ℤ → ℕ → Commanded → Learner × World → Learner × World
  shortfall entry mireds now commanded (learner, world) =
      let device_id = entry.indigo_device_id in
      let side = side_of (mireds -ℤ commanded.mireds) in
      let streak = Table.lookup device_id learner.pending in
      if repeats side mireds streak
      then (if is_inert commanded.at now streak
          then (learner, world)
          else (drop_pending device_id learner, adopt dumps flush entry side mireds false world))
      else (set_pending device_id side mireds commanded.at now learner, world)

  -- A reading within the bounds.
  pub settled : Entry → ℤ → ℕ → Option Commanded → Learner × World → Learner × World
  settled entry mireds now none (learner, world) =
      (drop_pending entry.indigo_device_id learner, world)
  settled entry mireds now (some commanded) (learner, world) =
      if ltb (commanded.at + freshness_window) now
      then (drop_pending entry.indigo_device_id learner, world)
      else if ltb (abs (mireds -ℤ commanded.mireds)) shortfall_threshold_mireds
      then (drop_pending entry.indigo_device_id learner, world)
      else shortfall entry mireds now commanded (learner, world)

  pub observe_locked : Entry → ℤ → ℕ → Learner × World → Learner × World
  observe_locked entry mireds now (learner, world) =
      let (current_min, current_max) = effective_ct_bounds (some entry.options) in
      if ltb_ℤ mireds current_min
      then (learner, adopt dumps flush entry cool mireds false world)
      else if ltb_ℤ current_max mireds
      then (learner, adopt dumps flush entry warm mireds false world)
      else settled entry mireds now (Table.lookup entry.indigo_device_id learner.commanded)
          (learner, world)

  unfoldable pub observe : Entry → ℤ → ℕ → Learner × World → Learner × World
  observe entry mireds now state =
      if elem entry.role ct_roles then observe_locked entry mireds now state else state

  unfoldable pub adopt_measured : Entry → Side → ℤ → Bool → World → World
  adopt_measured entry side mireds only_if_unclaimed world =
      if elem entry.role ct_roles
      then adopt dumps flush entry side mireds only_if_unclaimed world
      else world
