-- ===== src/Backup/Stages.antt =====
-- fabric_backup.py: the stages of a restore up to the extraction. What is only logged is left
-- out; a failure stands for the exception that the caller sees.
use indigo_matter.Prelude.{
  ℕ, String, Bool, true, false, ◌||◌, Option, none, some, List, [], ◌∷◌, is_some, length, str_eq,
  if◌then◌else◌,
}
use text.Mathlib.Text.{starts_with}
use indigo_matter.Python.{joined}
use indigo_matter.Backup.{
  Tree, controller, bridge, controller_aside, bridge_aside, controller_undone, stopped, dead,
  started, extracted, World, Answer, succeeds, refuses, breaks, unavailable, broken, answering,
  Probe, Extraction, complete, no_folder, partly, Host, is_success, note, rename,
}
use indigo_matter.Backup.Archive.{Archive, bridge_member_prefix, bridge_members_in, extract_into}

-- `_BridgePlan`; `moved_aside` says whether `moved_aside_to` is set, and `started` is left to the
-- report.
pub record BridgePlan : Type 0 where
  pub dest : String
  pub member_count : ℕ
  pub was_alive : Bool
  pub moved_aside : Bool

pub data Failure : Type 0 where
  not_found not_a_zip no_members : Failure
  corrupt unsafe_path : String → Failure
  bridge_not_stopped bridge_stop_raised controller_not_stopped : Failure
  double_fault move_failed rolled_back rollback_failed : Failure

pub data Outcome {ℓ} (A : Type ℓ) : Type ℓ where
  done : A → Outcome A
  failed : Failure → Outcome A

-- A stage of the restore, and the stages that follow one that is done.
abbrev pub Stage : Type 0 → Type 0
Stage A = World → Outcome A × World

abbrev pub onward : {A B : Type 0} → Outcome A × World → (A → Stage B) → Outcome B × World
onward (done a, w) next = next a w
onward (failed f, w) next = (failed f, w)

-- `_load_and_validate_archive`
unfoldable pub load_and_validate : Option Archive → Outcome (List (String × String))
load_and_validate none = failed not_found
load_and_validate (some a) =
    if a.is_zipfile
    then elim a.bad_member [
      | some n ↦ failed (corrupt n)
      | none ↦ elim a.members [ [] ↦ failed no_members | _ ∷ _ ↦ done a.members ]
    ]
    else failed not_a_zip

abbrev overlaps : String → String → Bool
overlaps dest storage =
    str_eq dest storage
    || starts_with dest (joined storage "/")
    || starts_with storage (joined dest "/")

-- `_plan_bridge_restore`, given the bridge's storage path where there is a control to stop it with.
unfoldable pub plan_bridge_restore :
    List (String × String) → String → Option String → Option BridgePlan
plan_bridge_restore members storage path = elim (bridge_members_in members) [
  | [] ↦ none
  | found ↦ elim path [
    | none ↦ none
    | some dest ↦
        if overlaps dest storage
        then none
        else some (record {
          dest = dest;
          member_count = length found;
          was_alive = false;
          moved_aside = false;
        })
  ]
]

-- `_control_is_alive`
unfoldable pub control_is_alive : Probe → Bool
control_is_alive unavailable = true
control_is_alive broken = true
control_is_alive (answering b) = b

-- `_restart_bridge`, where the plan stopped it.
unfoldable pub restart_if_alive : Host → Option BridgePlan → World → World
restart_if_alive h none w = w
restart_if_alive h (some p) w = if p.was_alive then note (started bridge h.bridge_start) w else w

unfoldable pub stop_controller : Host → Option BridgePlan → Stage (Option BridgePlan)
stop_controller h plan w =
    if is_success h.controller_stop
    then (done plan, note (stopped controller) w)
    else (failed controller_not_stopped, restart_if_alive h plan w)

-- A bridge that does not stop ends the restore.
unfoldable pub stop_both : Host → Option BridgePlan → Answer → Stage (Option BridgePlan)
stop_both h plan succeeds w = stop_controller h plan (note (stopped bridge) w)
stop_both h plan refuses w = (failed bridge_not_stopped, w)
stop_both h plan breaks w = (failed bridge_stop_raised, w)

-- `_stop_for_restore`
unfoldable pub stop_for_restore : Host → Option BridgePlan → Stage (Option BridgePlan)
stop_for_restore h none w = stop_controller h none w
stop_for_restore h (some p) w =
    let plan = some (record p { was_alive = control_is_alive h.bridge_probe }) in
    if control_is_alive h.bridge_probe
    then stop_both h plan h.bridge_stop w
    else stop_controller h plan (note (dead bridge) w)

-- What `_move_aside_for_restore` ends in: both sides moved as far as they exist, an OSError that
-- left them in place, or the double fault.
pub data Moved : Type 0 where
  moved : Bool → Option BridgePlan → World → Moved
  single : Option BridgePlan → World → Moved
  double : Option BridgePlan → World → Moved

-- A failing rename of the bridge undoes that of the controller.
unfoldable pub undo_controller : Host → Bool → BridgePlan → World → Moved
undo_controller h true p w = elim (rename h controller_undone w) [
  | none ↦ double (some p) w
  | some v ↦ single (some p) v
]
undo_controller h false p w = single (some p) w

unfoldable pub move_bridge : Host → Bool → Option BridgePlan → World → Moved
move_bridge h away none w = moved away none w
move_bridge h away (some p) w =
    if is_some w.bridge_places.live
    then elim (rename h bridge_aside w) [
      | none ↦ undo_controller h away p w
      | some v ↦ moved away (some (record p { moved_aside = true })) v
    ]
    else moved away (some p) w

unfoldable pub move_aside : Host → Option BridgePlan → World → Moved
move_aside h plan w =
    if is_some w.controller_places.live
    then elim (rename h controller_aside w) [
      | none ↦ single plan w
      | some v ↦ move_bridge h true plan v
    ]
    else move_bridge h false plan w

abbrev pub contents : Option Tree → Tree
contents none = []
contents (some t) = t

abbrev pub is_nonempty : Tree → Bool
is_nonempty [] = false
is_nonempty _ = true

abbrev pub put_controller : Tree → World → World
put_controller t w =
    note (extracted controller)
      (record w { controller_places = record w.controller_places { live = some t } })

abbrev pub put_bridge : Tree → World → World
put_bridge t w =
    note (extracted bridge) (record w { bridge_places = record w.bridge_places { live = some t } })

-- `os.makedirs` and `_safe_extract` of one side: whether it left files and raised nothing.
unfoldable pub extract_controller : List (String × String) → Extraction → World → Bool × World
extract_controller members complete w =
    let t = extract_into members "" (contents w.controller_places.live) in
    (is_nonempty t, put_controller t w)
extract_controller members no_folder w = (false, w)
extract_controller members (partly t) w = (false, put_controller t w)

unfoldable pub extract_bridge : List (String × String) → Extraction → World → Bool × World
extract_bridge members complete w =
    let t = extract_into members bridge_member_prefix (contents w.bridge_places.live) in
    (is_nonempty t, put_bridge t w)
extract_bridge members no_folder w = (false, w)
extract_bridge members (partly t) w = (false, put_bridge t w)

-- The bridge's side follows where the controller's is good.
unfoldable pub then_bridge :
    Host → List (String × String) → Option BridgePlan → Bool × World → Bool × World
then_bridge h members none r = r
then_bridge h members (some p) (false, w) = (false, w)
then_bridge h members (some p) (true, w) = extract_bridge members (h.extraction bridge) w

-- `_extract_for_restore`
unfoldable pub extract_for_restore :
    Host → List (String × String) → Option BridgePlan → World → Bool × World
extract_for_restore h members plan w =
    then_bridge h members plan (extract_controller members (h.extraction controller) w)
