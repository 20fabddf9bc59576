-- ===== src/Backup/Restore/Unwound.antt =====
-- fabric_backup.py: the extraction and the rollback keep each daemon down before its storage is
-- touched.
use indigo_matter.Prelude.{
  arith, String, Bool, true, false, ◌&&◌, Option, none, some, List, [], refl, inl, inr, is_some,
  Bool-cases, Option-cases,
}
use indigo_matter.Backup.{
  controller, bridge, bridge_failed, bridge_back, controller_failed, controller_back, extracted,
  started, note, World, Extraction, complete, no_folder, partly, Host, is_success, rename,
}
use indigo_matter.Backup.Stages.{
  BridgePlan, then_bridge, extract_controller, extract_bridge, put_controller, put_bridge,
}
use indigo_matter.Backup.Restore.{
  undo_bridge, bridge_in_place, undo_plan, undo_live, back_in_place, restarted, rollback,
  start_extracted,
}
use indigo_matter.Backup.Restore.Ready.{
  IsReady, IsGuarded, cons-IsReady, rename-IsReady, restart_if_alive-IsGuarded,
}

pub extract_controller-IsReady :
    (h : Host) (plan : Option BridgePlan) (members : List (String × String)) (x : Extraction)
    (w : World)
    → IsReady plan w
    → IsReady plan (extract_controller members x w).1
unfolding extract_controller
extract_controller-IsReady h plan members complete w k =
    cons-IsReady plan (extracted controller) w (put_controller [] w) refl refl (k.0, k.0, k.2) k
extract_controller-IsReady h plan members no_folder w k = k
extract_controller-IsReady h plan members (partly t) w k =
    cons-IsReady plan (extracted controller) w (put_controller t w) refl refl (k.0, k.0, k.2) k

pub extract_bridge-IsReady :
    (h : Host) (p : BridgePlan) (members : List (String × String)) (x : Extraction) (w : World)
    → IsReady (some p) w
    → IsReady (some p) (extract_bridge members x w).1
unfolding extract_bridge
extract_bridge-IsReady h p members complete w k =
    cons-IsReady (some p) (extracted bridge) w (put_bridge [] w) refl refl (k.1, k.0, k.2) k
extract_bridge-IsReady h p members no_folder w k = k
extract_bridge-IsReady h p members (partly t) w k =
    cons-IsReady (some p) (extracted bridge) w (put_bridge t w) refl refl (k.1, k.0, k.2) k

pub then_bridge-IsReady :
    (h : Host) (plan : Option BridgePlan) (members : List (String × String)) (r : Bool × World)
    → IsReady plan r.1
    → IsReady plan (then_bridge h members plan r).1
unfolding then_bridge
then_bridge-IsReady h none members r k = k
then_bridge-IsReady h (some p) members (false, w) k = k
then_bridge-IsReady h (some p) members (true, w) k =
    extract_bridge-IsReady h p members (h.extraction bridge) w k

pub bridge_in_place-IsReady :
    (h : Host) (p : BridgePlan) (away : Bool) (w : World)
    → IsReady (some p) w
    → IsReady (some p) (bridge_in_place h away w).1
unfolding bridge_in_place
bridge_in_place-IsReady h p away w k = elim (Bool-cases (away && is_some w.bridge_places.aside)) [
  | inr e ↦ rw e k
  | inl e ↦ elim (Option-cases (rename h bridge_back w)) [
    | inl f ↦ rw (e, f) k
    | inr (v, f) ↦ rw (e, f) (rename-IsReady h (some p) bridge_back w v f k.1 k)
  ]
]

pub undo_bridge-IsReady :
    (h : Host) (p : BridgePlan) (away : Bool) (w : World)
    → IsReady (some p) w
    → IsReady (some p) (undo_bridge h away w).1
unfolding undo_bridge
undo_bridge-IsReady h p away w k = elim (Bool-cases (is_some w.bridge_places.live)) [
  | inr e ↦ rw e (bridge_in_place-IsReady h p away w k)
  | inl e ↦ elim (Option-cases (rename h bridge_failed w)) [
    | inl f ↦ rw (e, f) k
    | inr (v, f) ↦
        rw (e, f)
          (bridge_in_place-IsReady h p away v (rename-IsReady h (some p) bridge_failed w v f k.1 k))
  ]
]

pub back_in_place-IsReady :
    (h : Host) (plan : Option BridgePlan) (away : Bool) (w : World)
    → IsReady plan w
    → IsReady plan (back_in_place h away w).1
unfolding back_in_place
back_in_place-IsReady h plan away w k =
    elim (Bool-cases (away && is_some w.controller_places.aside)) [
      | inr e ↦ rw e k
      | inl e ↦ elim (Option-cases (rename h controller_back w)) [
        | inl f ↦ rw (e, f) k
        | inr (v, f) ↦ rw (e, f) (rename-IsReady h plan controller_back w v f k.0 k)
      ]
    ]

pub undo_live-IsReady :
    (h : Host) (plan : Option BridgePlan) (away : Bool) (w : World)
    → IsReady plan w
    → IsReady plan (undo_live h away w).1
unfolding undo_live
undo_live-IsReady h plan away w k = elim (Bool-cases (is_some w.controller_places.live)) [
  | inr e ↦ rw e (back_in_place-IsReady h plan away w k)
  | inl e ↦ elim (Option-cases (rename h controller_failed w)) [
    | inl f ↦ rw (e, f) k
    | inr (v, f) ↦
        rw (e, f)
          (back_in_place-IsReady h plan away v
            (rename-IsReady h plan controller_failed w v f k.0 k))
  ]
]

pub undo_plan-IsReady :
    (h : Host) (plan : Option BridgePlan) (w : World)
    → IsReady plan w
    → IsReady plan (undo_plan h plan w)
unfolding undo_plan
undo_plan-IsReady h none w k = k
undo_plan-IsReady h (some p) w k = undo_bridge-IsReady h p p.moved_aside w k

-- The starts that end a restore touch no storage.
pub restarted-IsGuarded :
    (h : Host) (plan : Option BridgePlan) (r : Bool × World)
    → IsGuarded r.1.calls
    → IsGuarded (restarted h plan r).1.calls
unfolding restarted
restarted-IsGuarded h plan (true, w) k =
    restart_if_alive-IsGuarded h plan (note (started controller h.controller_restart) w) k
restarted-IsGuarded h plan (false, w) k = k

pub rollback-IsGuarded :
    (h : Host) (plan : Option BridgePlan) (away : Bool) (w : World)
    → IsReady plan w
    → IsGuarded (rollback h plan away w).1.calls
unfolding rollback
rollback-IsGuarded h plan away w k =
    restarted-IsGuarded h plan _ (undo_live-IsReady h plan away _ (undo_plan-IsReady h plan w k)).2

-- A start that fails leaves the controller down for the rollback.
pub start_extracted-IsGuarded :
    (h : Host) (members : List (String × String)) (plan : Option BridgePlan) (away : Bool)
    (r : Bool × World)
    → IsReady plan r.1
    → IsGuarded (start_extracted h members plan away r).1.calls
unfolding start_extracted
start_extracted-IsGuarded h members plan away (false, w) k = rollback-IsGuarded h plan away w k
start_extracted-IsGuarded h members plan away (true, w) k =
    elim (Bool-cases (is_success h.controller_start)) [
      | inl e ↦
          rw e
            (restart_if_alive-IsGuarded h plan (note (started controller h.controller_start) w) k.2)
      | inr e ↦
          let begun =
            cons-IsReady plan (started controller h.controller_start) w
              (note (started controller h.controller_start) w) refl (ground arith) k.2 k in
          rw e (rollback-IsGuarded h plan away _ begun)
    ]
