-- ===== src/Backup/Restore/Kept.antt =====
-- fabric_backup.py: the original fabric survives a restore, whatever fails.
use indigo_matter.Prelude.{
  String, Bool, true, false, Option, none, some, [], ◌≡◌, refl, arith, inl, inr, Bool-cases,
}
use indigo_matter.Backup.{
  dead, note, Tree, World, Host, Extraction, complete, no_folder, partly, controller, bridge,
  Answer, succeeds, refuses, breaks, is_success,
}
use indigo_matter.Backup.Archive.{Archive}
use indigo_matter.Backup.Stages.{
  done, failed, Outcome, BridgePlan, stop_both, control_is_alive, onward, plan_bridge_restore,
  load_and_validate, stop_for_restore, stop_controller, moved, single, double, Moved, move_aside,
  then_bridge, extract_for_restore, extract_controller, extract_bridge,
}
use indigo_matter.Backup.Restore.{
  Paths, restore_backup, start_extracted, after_move, restore_members, restore_checked, preflight,
  move_and_extract,
}
use indigo_matter.Backup.Restore.Undone.{
  move_aside-IsMoved, restart_if_alive_places, rollback-IsKept, strands, Members, IsPlaced, IsKept,
  IsMoved,
}

-- The outcome of an extraction, over a fabric that is aside.
abbrev IsExtracted : Tree → Members → Bool × World → Type 0
IsExtracted t members (true, w) = (w.controller_places.aside ≡ some t) × IsPlaced members w
IsExtracted t members (false, w) = w.controller_places.aside ≡ some t

extract_controller-IsExtracted :
    (members : Members) (x : Extraction) (w : World) (t : Tree)
    → w.controller_places.live ≡ none
    → w.controller_places.aside ≡ some t
    → IsExtracted t members (extract_controller members x w)
unfolding extract_controller
extract_controller-IsExtracted members complete w t live aside = ground arith
extract_controller-IsExtracted members no_folder w t live aside = aside
extract_controller-IsExtracted members (partly u) w t live aside = aside

extract_bridge-IsExtracted :
    (members : Members) (x : Extraction) (w : World) (t : Tree)
    → IsExtracted t members (true, w)
    → IsExtracted t members (extract_bridge members x w)
unfolding extract_bridge
extract_bridge-IsExtracted members complete w t k = ground arith
extract_bridge-IsExtracted members no_folder w t k = k.0
extract_bridge-IsExtracted members (partly u) w t k = k.0

then_bridge-IsExtracted :
    (h : Host) (members : Members) (plan : Option BridgePlan) (t : Tree) (r : Bool × World)
    → IsExtracted t members r
    → IsExtracted t members (then_bridge h members plan r)
unfolding then_bridge
then_bridge-IsExtracted h members none t r k = k
then_bridge-IsExtracted h members (some p) t (false, w) k = k
then_bridge-IsExtracted h members (some p) t (true, w) k =
    extract_bridge-IsExtracted members (h.extraction bridge) w t k

start_extracted-IsKept :
    (h : Host) (members : Members) (plan : Option BridgePlan) (t : Tree) (r : Bool × World)
    → IsExtracted t members r
    → IsKept t members (start_extracted h members plan true r)
unfolding start_extracted
start_extracted-IsKept h members plan t (false, w) k = rollback-IsKept h plan w t members k
start_extracted-IsKept h members plan t (true, w) k =
    elim (Bool-cases (is_success h.controller_start)) [
      | inl e ↦ rw e (rw (restart_if_alive_places h plan _) k)
      | inr e ↦ rw e (rollback-IsKept h plan _ t members k.0)
    ]

after_move-IsKept :
    (h : Host) (members : Members) (m : Moved) (t : Tree)
    → IsMoved t m
    → IsKept t members (after_move h members m)
unfolding after_move extract_for_restore
after_move-IsKept h members (moved away plan w) t k = rw k.0 (
    start_extracted-IsKept h members plan t _ (
      then_bridge-IsExtracted h members plan t _
        (extract_controller-IsExtracted members (h.extraction controller) w t k.1 k.2)))
after_move-IsKept h members (single plan w) t k = rw (restart_if_alive_places h plan _) k
after_move-IsKept h members (double plan w) t k = rw (restart_if_alive_places h plan _) k.1

-- Before the renames a failure leaves the fabric in place.
abbrev IsAborted : Tree → Outcome (Option BridgePlan) × World → Type 0
IsAborted t (done p, w) = w.controller_places.live ≡ some t
IsAborted t (failed f, w) = (strands f ≡ false) × (w.controller_places.live ≡ some t)

stop_controller-IsAborted :
    (h : Host) (plan : Option BridgePlan) (w : World) (t : Tree)
    → w.controller_places.live ≡ some t
    → IsAborted t (stop_controller h plan w)
unfolding stop_controller
stop_controller-IsAborted h plan w t live = elim (Bool-cases (is_success h.controller_stop)) [
  | inl e ↦ rw e live
  | inr e ↦ rw e (refl, rw (restart_if_alive_places h plan w) live)
]

stop_both-IsAborted :
    (h : Host) (plan : Option BridgePlan) (a : Answer) (w : World) (t : Tree)
    → w.controller_places.live ≡ some t
    → IsAborted t (stop_both h plan a w)
unfolding stop_both
stop_both-IsAborted h plan succeeds w t live = stop_controller-IsAborted h plan _ t live
stop_both-IsAborted h plan refuses w t live = (refl, live)
stop_both-IsAborted h plan breaks w t live = (refl, live)

stop_for_restore-IsAborted :
    (h : Host) (plan : Option BridgePlan) (w : World) (t : Tree)
    → w.controller_places.live ≡ some t
    → IsAborted t (stop_for_restore h plan w)
unfolding stop_for_restore
stop_for_restore-IsAborted h none w t live = stop_controller-IsAborted h none w t live
stop_for_restore-IsAborted h (some p) w t live =
    elim (Bool-cases (control_is_alive h.bridge_probe)) [
      | inl e ↦ rw e (stop_both-IsAborted h _ h.bridge_stop w t live)
      | inr e ↦ rw e (stop_controller-IsAborted h _ (note (dead bridge) w) t live)
    ]

onward-IsKept :
    (h : Host) (members : Members) (t : Tree) (r : Outcome (Option BridgePlan) × World)
    → IsAborted t r
    → IsKept t members (onward r (move_and_extract h members))
unfolding move_and_extract
onward-IsKept h members t (done plan, w) k =
    after_move-IsKept h members (move_aside h plan w) t (move_aside-IsMoved h plan w t k)
onward-IsKept h members t (failed f, w) k = rw (k.0, IsKept) k.1

-- The stages that read the archive touch nothing.
abbrev IsHarmless {ℓ} : {A : Type ℓ} → Outcome A → Type 0
IsHarmless (done a) = Unit
IsHarmless (failed f) = strands f ≡ false

preflight-IsHarmless :
    (realpath : String → String) (members : Members) (storage : String) (plan : Option BridgePlan)
    → IsHarmless (preflight realpath members storage plan)
unfolding preflight
preflight-IsHarmless realpath members storage none = ground arith
preflight-IsHarmless realpath members storage (some p) = ground arith

restore_checked-IsKept :
    (h : Host) (members : Members) (w : World) (t : Tree) (r : Outcome (Option BridgePlan))
    → IsHarmless r
    → w.controller_places.live ≡ some t
    → IsKept t members (onward (r, w) (restore_checked h members))
unfolding restore_checked
restore_checked-IsKept h members w t (done plan) k live =
    onward-IsKept h members t _ (stop_for_restore-IsAborted h plan w t live)
restore_checked-IsKept h members w t (failed f) k live = rw (k, IsKept) live

abbrev pub members_of : Option Archive → Members
members_of none = []
members_of (some a) = a.members

-- The loaded members, or a failure that touched nothing.
abbrev IsLoaded : Option Archive → Outcome Members → Type 0
IsLoaded archive (done members) = members ≡ members_of archive
IsLoaded archive (failed f) = strands f ≡ false

load_and_validate-IsLoaded :
    (archive : Option Archive) → IsLoaded archive (load_and_validate archive)
unfolding load_and_validate
load_and_validate-IsLoaded none = refl
load_and_validate-IsLoaded (some a) = ground arith

restored-IsKept :
    (realpath : String → String) (h : Host) (archive : Option Archive) (paths : Paths) (w : World)
    (t : Tree) (r : Outcome Members)
    → IsLoaded archive r
    → w.controller_places.live ≡ some t
    → IsKept t
        (members_of archive)
        (onward (r, w) λ members. restore_members realpath h members paths)
unfolding restore_members
restored-IsKept realpath h archive paths w t (done members) k live =
    let plan = plan_bridge_restore members paths.storage_path paths.bridge_storage_path in
    rw (← k) (
      restore_checked-IsKept h members w t (preflight realpath members paths.storage_path plan)
        (preflight-IsHarmless realpath members paths.storage_path plan) live)
restored-IsKept realpath h archive paths w t (failed f) k live = rw (k, IsKept) live

-- The original fabric is never lost: whatever the controls, the renames and the extractions answer,
-- a restore over a storage directory with the files t leaves t in place and raises, or leaves the
-- archive's files in place and t in the pre-restore directory, or, where a rename of the rollback
-- or of the undoing raised, raises that and leaves t in the pre-restore directory.
pub restore_backup-IsKept :
    (realpath : String → String) (h : Host) (archive : Option Archive) (paths : Paths) (w : World)
    (t : Tree)
    → w.controller_places.live ≡ some t
    → IsKept t (members_of archive) (restore_backup realpath h archive paths w)
unfolding restore_backup
restore_backup-IsKept realpath h archive paths w t live =
    restored-IsKept realpath h archive paths w t (load_and_validate archive)
      (load_and_validate-IsLoaded archive) live
