-- ===== src/Backup/Restore.antt =====
-- fabric_backup.py: `restore_backup`, with its rollback.
pub mod Undone
pub mod Kept
pub mod Ready
pub mod Unwound
pub mod Guarded
pub mod Rejected
pub mod Examples
use indigo_matter.Prelude.{
  ℕ, String, Bool, true, false, ◌&&◌, Option, none, some, List, [], length, is_some, if◌then◌else◌,
}
use indigo_matter.Backup.{
  controller, bridge, bridge_failed, bridge_back, controller_failed, controller_back, Rename,
  started, World, Host, is_success, note, rename,
}
use indigo_matter.Backup.Archive.{Archive, bridge_member_prefix, bridge_members_in, first_unsafe}
use indigo_matter.Backup.Stages.{
  BridgePlan, unsafe_path, double_fault, move_failed, rolled_back, rollback_failed, done, failed,
  Outcome, Stage, onward, load_and_validate, plan_bridge_restore, restart_if_alive,
  stop_for_restore, moved, single, double, Moved, move_aside, extract_for_restore,
}

-- The two renames that undo one side, the second where the original was moved aside; `false` where
-- one raised.
unfoldable pub bridge_in_place : Host → Bool → World → Bool × World
bridge_in_place h away w =
    if away && is_some w.bridge_places.aside
    then elim (rename h bridge_back w) [ none ↦ (false, w) | some v ↦ (true, v) ]
    else (true, w)

unfoldable pub undo_bridge : Host → Bool → World → Bool × World
undo_bridge h away w =
    if is_some w.bridge_places.live
    then elim (rename h bridge_failed w) [ none ↦ (false, w) | some v ↦ bridge_in_place h away v ]
    else bridge_in_place h away w

unfoldable pub back_in_place : Host → Bool → World → Bool × World
back_in_place h away w =
    if away && is_some w.controller_places.aside
    then elim (rename h controller_back w) [ none ↦ (false, w) | some v ↦ (true, v) ]
    else (true, w)

unfoldable pub undo_live : Host → Bool → World → Bool × World
undo_live h away w =
    if is_some w.controller_places.live
    then elim (rename h controller_failed w) [ none ↦ (false, w) | some v ↦ back_in_place h away v ]
    else back_in_place h away w

-- The bridge's part of `_rollback`, which never raises.
unfoldable pub undo_plan : Host → Option BridgePlan → World → World
undo_plan h none w = w
undo_plan h (some p) w = (undo_bridge h p.moved_aside w).1

pub record Report : Type 0 where
  pub moved_aside_to : Bool
  pub bridge_restored : Bool
  pub bridge_members : ℕ
  pub bridge_moved_aside_to : Bool
  pub bridge_started : Option Bool

abbrev bridge_restarted : Host → BridgePlan → Option Bool
bridge_restarted h p = if p.was_alive then some (is_success h.bridge_start) else none

unfoldable pub report_of : Host → List (String × String) → Option BridgePlan → Bool → Report
report_of h members none away = record {
  moved_aside_to = away;
  bridge_restored = false;
  bridge_members = length (bridge_members_in members);
  bridge_moved_aside_to = false;
  bridge_started = none;
}
report_of h members (some p) away = record {
  moved_aside_to = away;
  bridge_restored = true;
  bridge_members = p.member_count;
  bridge_moved_aside_to = p.moved_aside;
  bridge_started = bridge_restarted h p;
}

-- The starts that follow the controller's undoing; a rename that raised ends the rollback.
unfoldable pub restarted : Host → Option BridgePlan → Bool × World → Outcome Report × World
restarted h plan (true, w) =
    (failed rolled_back, restart_if_alive h plan (note (started controller h.controller_restart) w))
restarted h plan (false, w) = (failed rollback_failed, w)

-- `_rollback`, and the RuntimeError that follows it, or its own OSError.
unfoldable pub rollback : Host → Option BridgePlan → Bool → World → Outcome Report × World
rollback h plan away w = restarted h plan (undo_live h away (undo_plan h plan w))

-- The controller is started on the extracted files; where that fails too, all is rolled back.
unfoldable pub start_extracted :
    Host → List (String × String) → Option BridgePlan → Bool → Bool × World → Outcome Report × World
start_extracted h members plan away (false, w) = rollback h plan away w
start_extracted h members plan away (true, w) =
    let v = note (started controller h.controller_start) w in
    if is_success h.controller_start
    then (done (report_of h members plan away), restart_if_alive h plan v)
    else rollback h plan away v

-- What follows the renames; the double fault starts the bridge alone.
unfoldable pub after_move : Host → List (String × String) → Moved → Outcome Report × World
after_move h members (moved away plan w) =
    start_extracted h members plan away (extract_for_restore h members plan w)
after_move h members (single plan w) =
    (failed move_failed, restart_if_alive h plan (note (started controller h.controller_restart) w))
after_move h members (double plan w) = (failed double_fault, restart_if_alive h plan w)

unfoldable pub move_and_extract :
    Host → List (String × String) → Option BridgePlan → World → Outcome Report × World
move_and_extract h members plan w = after_move h members (move_aside h plan w)

unfoldable pub restore_checked : Host → List (String × String) → Option BridgePlan → Stage Report
restore_checked h members plan w = onward (stop_for_restore h plan w) (move_and_extract h members)

-- Where a restore may write: the paths of the two sides, the bridge's where it has a control.
pub record Paths : Type 0 where
  pub storage_path : String
  pub bridge_storage_path : Option String

module _ (realpath : String → String) where
  -- The zip-slip guard for both sides.
  unfoldable pub preflight :
      List (String × String) → String → Option BridgePlan → Outcome (Option BridgePlan)
  preflight members storage none = elim (first_unsafe realpath members storage "") [
    | some n ↦ failed (unsafe_path n)
    | none ↦ done none
  ]
  preflight members storage (some p) = elim (first_unsafe realpath members storage "") [
    | some n ↦ failed (unsafe_path n)
    | none ↦ elim (first_unsafe realpath members p.dest bridge_member_prefix) [
      | some n ↦ failed (unsafe_path n)
      | none ↦ done (some p)
    ]
  ]

  unfoldable pub restore_members : Host → List (String × String) → Paths → Stage Report
  restore_members h members paths w =
      let plan = plan_bridge_restore members paths.storage_path paths.bridge_storage_path in
      onward (preflight members paths.storage_path plan, w) (restore_checked h members)

  unfoldable pub restore_backup : Host → Option Archive → Paths → Stage Report
  restore_backup h archive paths w =
      onward (load_and_validate archive, w) λ members. restore_members h members paths
