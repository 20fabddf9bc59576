-- ===== src/Backup/Restore/Undone.antt =====
-- fabric_backup.py: where the original fabric is after the renames of a restore and its rollback.
use indigo_matter.Prelude.{
  String, Bool, true, false, Option, none, some, List, [], ◌≡◌, refl, ◌∙◌, arith, inl, inr,
  Option-cases, is_some,
}
use indigo_matter.Backup.{
  Tree, World, Host, controller_aside, rename, effect, set_aside, put_back, set_failed,
}
use indigo_matter.Backup.Archive.{extract_into}
use indigo_matter.Backup.Stages.{
  Failure, double_fault, rollback_failed, done, failed, Outcome, restart_if_alive, BridgePlan,
  moved, single, double, Moved, move_aside, move_bridge, undo_controller, is_nonempty,
}
use indigo_matter.Backup.Restore.{
  Report, undo_bridge, bridge_in_place, undo_plan, undo_live, back_in_place, restarted, rollback,
}

-- The failures that leave the fabric aside, not in place.
abbrev pub strands : Failure → Bool
strands double_fault = true
strands rollback_failed = true
strands _ = false

abbrev pub Members : Type 0
Members = List (String × String)

-- The files of an archive's controller side are in place, and there are some.
abbrev pub IsPlaced : Members → World → Type 0
IsPlaced members w =
    (w.controller_places.live ≡ some (extract_into members "" []))
    × (is_nonempty (extract_into members "" []) ≡ true)

-- Where the original fabric is after an outcome, and what is in its place.
abbrev pub IsKept : Tree → Members → Outcome Report × World → Type 0
IsKept t members (done r, w) = (w.controller_places.aside ≡ some t) × IsPlaced members w
IsKept t members (failed f, w) = elim (strands f) [
  | true ↦ w.controller_places.aside ≡ some t
  | false ↦ w.controller_places.live ≡ some t
]

abbrev pub IsMoved : Tree → Moved → Type 0
IsMoved t (moved away p v) =
    (away ≡ true) × (v.controller_places.live ≡ none) × (v.controller_places.aside ≡ some t)
IsMoved t (single p v) = v.controller_places.live ≡ some t
IsMoved t (double p v) = (v.controller_places.live ≡ none) × (v.controller_places.aside ≡ some t)

pub move_bridge-IsMoved :
    (h : Host) (plan : Option BridgePlan) (w : World) (t : Tree)
    → w.controller_places.live ≡ none
    → w.controller_places.aside ≡ some t
    → IsMoved t (move_bridge h true plan w)
unfolding move_bridge undo_controller rename effect set_aside put_back
move_bridge-IsMoved h none w t live aside = (refl, live, aside)
move_bridge-IsMoved h (some p) w t live aside = ground arith

pub rename_controller_aside :
    (h : Host) (w v : World)
    → rename h controller_aside w ≡ some v
    → (v.controller_places.live ≡ none) × (v.controller_places.aside ≡ w.controller_places.live)
unfolding rename effect set_aside
rename_controller_aside h w v e = ground arith

pub move_aside-IsMoved :
    (h : Host) (plan : Option BridgePlan) (w : World) (t : Tree)
    → w.controller_places.live ≡ some t
    → IsMoved t (move_aside h plan w)
unfolding move_aside
move_aside-IsMoved h plan w t live =
    let there : is_some w.controller_places.live ≡ true = ground arith in
    elim (Option-cases (rename h controller_aside w)) [
      | inl e ↦ rw (there, e) live
      | inr (v, e) ↦
          let k = rename_controller_aside h w v e in
          rw (there, e) (move_bridge-IsMoved h plan v t k.0 (k.1 ∙ live))
    ]

pub undo_bridge_controller :
    (h : Host) (away : Bool) (w : World)
    → (undo_bridge h away w).1.controller_places ≡ w.controller_places
unfolding undo_bridge bridge_in_place rename effect
undo_bridge_controller h away w = ground arith

unfoldable pub IsUndone : Tree → Bool × World → Type 0
IsUndone t (true, w) = w.controller_places.live ≡ some t
IsUndone t (false, w) = w.controller_places.aside ≡ some t

pub undo_live-IsUndone :
    (h : Host) (w : World) (t : Tree)
    → w.controller_places.aside ≡ some t
    → IsUndone t (undo_live h true w)
unfolding undo_live back_in_place rename effect set_failed put_back IsUndone
undo_live-IsUndone h w t aside = ground arith

pub restart_if_alive_places :
    (h : Host) (plan : Option BridgePlan) (w : World)
    → (restart_if_alive h plan w).controller_places ≡ w.controller_places
unfolding restart_if_alive
restart_if_alive_places h none w = refl
restart_if_alive_places h (some p) w = ground arith

pub undo_plan_controller :
    (h : Host) (plan : Option BridgePlan) (w : World)
    → (undo_plan h plan w).controller_places ≡ w.controller_places
unfolding undo_plan
undo_plan_controller h none w = refl
undo_plan_controller h (some p) w = undo_bridge_controller h p.moved_aside w

pub restarted-IsKept :
    (h : Host) (plan : Option BridgePlan) (t : Tree) (members : Members) (r : Bool × World)
    → IsUndone t r
    → IsKept t members (restarted h plan r)
unfolding restarted IsUndone
restarted-IsKept h plan t members (true, w) k = rw (restart_if_alive_places h plan _) k
restarted-IsKept h plan t members (false, w) k = k

pub rollback-IsKept :
    (h : Host) (plan : Option BridgePlan) (w : World) (t : Tree) (members : Members)
    → w.controller_places.aside ≡ some t
    → IsKept t members (rollback h plan true w)
unfolding rollback
rollback-IsKept h plan w t members aside =
    restarted-IsKept h plan t members _
      (undo_live-IsUndone h (undo_plan h plan w) t (rw (undo_plan_controller h plan w) aside))
