-- ===== src/Backup/Restore/Guarded.antt =====
-- fabric_backup.py: no storage is touched before its daemon is down.
use indigo_matter.Prelude.{
  String, Bool, true, false, Option, none, some, List, ◌≡◌, refl, inl, inr, is_some, Bool-cases,
  Option-cases,
}
use indigo_matter.Backup.{
  controller, bridge, controller_aside, bridge_aside, controller_undone, stopped, dead, started,
  World, Answer, succeeds, refuses, breaks, Host, is_success, note, rename,
}
use indigo_matter.Backup.Archive.{Archive}
use indigo_matter.Backup.Stages.{
  done, failed, Outcome, restart_if_alive, BridgePlan, stop_both, control_is_alive, onward,
  load_and_validate, stop_for_restore, stop_controller, moved, single, double, Moved, move_aside,
  move_bridge, undo_controller, extract_for_restore,
}
use indigo_matter.Backup.Restore.{
  Paths, restore_backup, after_move, restore_members, restore_checked, move_and_extract,
}
use indigo_matter.Backup.Restore.Ready.{
  IsGuarded, is_bridge_ready, IsReady, rename-IsReady, is_bridge_ready-cons,
  restart_if_alive-IsGuarded,
}
use indigo_matter.Backup.Restore.Unwound.{
  extract_controller-IsReady, then_bridge-IsReady, start_extracted-IsGuarded,
}

-- What the renames end in, for the plan that they hand on.
abbrev IsMovedReady : Moved → Type 0
IsMovedReady (moved away plan w) = IsReady plan w
IsMovedReady (single plan w) = IsReady plan w
IsMovedReady (double plan w) = IsReady plan w

undo_controller-IsMovedReady :
    (h : Host) (away : Bool) (p : BridgePlan) (w : World)
    → IsReady (some p) w
    → IsMovedReady (undo_controller h away p w)
unfolding undo_controller
undo_controller-IsMovedReady h false p w k = k
undo_controller-IsMovedReady h true p w k = elim (Option-cases (rename h controller_undone w)) [
  | inl e ↦ rw (e, undo_controller) k
  | inr (v, e) ↦ rw (e, undo_controller) (rename-IsReady h (some p) controller_undone w v e k.0 k)
]

move_bridge-IsMovedReady :
    (h : Host) (away : Bool) (plan : Option BridgePlan) (w : World)
    → IsReady plan w
    → IsMovedReady (move_bridge h away plan w)
unfolding move_bridge
move_bridge-IsMovedReady h away none w k = k
move_bridge-IsMovedReady h away (some p) w k = elim (Bool-cases (is_some w.bridge_places.live)) [
  | inr e ↦ rw e k
  | inl e ↦ elim (Option-cases (rename h bridge_aside w)) [
    | inl f ↦ rw (e, f) (undo_controller-IsMovedReady h away p w k)
    | inr (v, f) ↦ rw (e, f) (rename-IsReady h (some p) bridge_aside w v f k.1 k)
  ]
]

move_aside-IsMovedReady :
    (h : Host) (plan : Option BridgePlan) (w : World)
    → IsReady plan w
    → IsMovedReady (move_aside h plan w)
unfolding move_aside
move_aside-IsMovedReady h plan w k = elim (Bool-cases (is_some w.controller_places.live)) [
  | inr e ↦ rw e (move_bridge-IsMovedReady h false plan w k)
  | inl e ↦ elim (Option-cases (rename h controller_aside w)) [
    | inl f ↦ rw (e, f) k
    | inr (v, f) ↦
        rw (e, f)
          (move_bridge-IsMovedReady h true plan v
            (rename-IsReady h plan controller_aside w v f k.0 k))
  ]
]

after_move-IsGuarded :
    (h : Host) (members : List (String × String)) (m : Moved)
    → IsMovedReady m
    → IsGuarded (after_move h members m).1.calls
unfolding after_move extract_for_restore
after_move-IsGuarded h members (moved away plan w) k =
    start_extracted-IsGuarded h members plan away _ (
      then_bridge-IsReady h plan members _
        (extract_controller-IsReady h plan members (h.extraction controller) w k))
after_move-IsGuarded h members (single plan w) k =
    restart_if_alive-IsGuarded h plan (note (started controller h.controller_restart) w) k.2
after_move-IsGuarded h members (double plan w) k = restart_if_alive-IsGuarded h plan w k.2

-- What the stops end in.
abbrev IsStopped : Outcome (Option BridgePlan) × World → Type 0
IsStopped (done plan, w) = IsReady plan w
IsStopped (failed f, w) = IsGuarded w.calls

stop_controller-IsStopped :
    (h : Host) (plan : Option BridgePlan) (w : World)
    → is_bridge_ready plan w.calls ≡ true
    → IsGuarded w.calls
    → IsStopped (stop_controller h plan w)
unfolding stop_controller restart_if_alive
stop_controller-IsStopped h plan w down guarded = elim (Bool-cases (is_success h.controller_stop)) [
  | inl e ↦ rw e (refl, is_bridge_ready-cons plan (stopped controller) w.calls refl down, guarded)
  | inr e ↦ rw e (restart_if_alive-IsGuarded h plan w guarded)
]

stop_both-IsStopped :
    (h : Host) (p : BridgePlan) (a : Answer) (w : World)
    → IsGuarded w.calls
    → IsStopped (stop_both h (some p) a w)
unfolding stop_both
stop_both-IsStopped h p succeeds w guarded =
    stop_controller-IsStopped h (some p) (note (stopped bridge) w) refl guarded
stop_both-IsStopped h p refuses w guarded = guarded
stop_both-IsStopped h p breaks w guarded = guarded

stop_for_restore-IsStopped :
    (h : Host) (plan : Option BridgePlan) (w : World)
    → IsGuarded w.calls
    → IsStopped (stop_for_restore h plan w)
unfolding stop_for_restore
stop_for_restore-IsStopped h none w guarded = stop_controller-IsStopped h none w refl guarded
stop_for_restore-IsStopped h (some p) w guarded =
    elim (Bool-cases (control_is_alive h.bridge_probe)) [
      | inl e ↦ rw e (stop_both-IsStopped h _ h.bridge_stop w guarded)
      | inr e ↦ rw e (
          stop_controller-IsStopped h (some (record p { was_alive = false })) (note (dead bridge) w)
            refl guarded)
    ]

onward-IsGuarded :
    (h : Host) (members : List (String × String)) (r : Outcome (Option BridgePlan) × World)
    → IsStopped r
    → IsGuarded (onward r (move_and_extract h members)).1.calls
unfolding move_and_extract
onward-IsGuarded h members (done plan, w) k =
    after_move-IsGuarded h members (move_aside h plan w) (move_aside-IsMovedReady h plan w k)
onward-IsGuarded h members (failed f, w) k = k

restore_checked-IsGuarded :
    (h : Host) (members : List (String × String)) (w : World) (r : Outcome (Option BridgePlan))
    → IsGuarded w.calls
    → IsGuarded (onward (r, w) (restore_checked h members)).1.calls
unfolding restore_checked
restore_checked-IsGuarded h members w (done plan) k =
    onward-IsGuarded h members (stop_for_restore h plan w) (stop_for_restore-IsStopped h plan w k)
restore_checked-IsGuarded h members w (failed f) k = k

restored-IsGuarded :
    (realpath : String → String) (h : Host) (paths : Paths) (w : World)
    (r : Outcome (List (String × String)))
    → IsGuarded w.calls
    → IsGuarded (onward (r, w) λ members. restore_members realpath h members paths).1.calls
unfolding restore_members
restored-IsGuarded realpath h paths w (done members) k = restore_checked-IsGuarded h members w _ k
restored-IsGuarded realpath h paths w (failed f) k = k

-- No storage is touched under a running daemon: in the calls of a restore, at each rename and each
-- extraction the controller is down, and at one of the bridge's storage the bridge too. A daemon is
-- down where its last stop() returned True, or its control denied that it is alive, and no start() of
-- it returned True since. The world before may hold guarded calls only.
pub restore_backup-IsGuarded :
    (realpath : String → String) (h : Host) (archive : Option Archive) (paths : Paths) (w : World)
    → IsGuarded w.calls
    → IsGuarded (restore_backup realpath h archive paths w).1.calls
unfolding restore_backup
restore_backup-IsGuarded realpath h archive paths w k =
    restored-IsGuarded realpath h paths w (load_and_validate archive) k
