-- ===== src/Backup.antt =====
-- fabric_backup.py: what a restore sees of the machine. The storage directories of matter-server
-- (the controller) and of the bridge node, each with the names it can be moved to, and the calls
-- of the two daemons' controls. The controls, the renames and the extractions answer as a `Host`
-- chooses.
pub mod Archive
pub mod Stages
pub mod Restore
pub mod Snapshots
use indigo_matter.Prelude.{
  String, Bool, true, false, Option, none, some, List, [], ◌∷◌, is_some, if◌then◌else◌, ◌||◌,
}
use indigo_matter.Python.Table.{Table}

-- The files of a directory, by their path below it.
abbrev pub Tree : Type 0
Tree = Table String String

-- A storage path, `<path>.pre-restore-<stamp>` and `<path>.failed-<stamp>`: a directory, or absent.
pub record Places : Type 0 where
  pub live : Option Tree
  pub aside : Option Tree
  pub failed : Option Tree

pub data Daemon : Type 0 where
  controller bridge : Daemon

-- The renames of a restore, by the place in the code.
pub data Rename : Type 0 where
  controller_aside bridge_aside controller_undone : Rename
  bridge_failed bridge_back controller_failed controller_back : Rename

-- A control's `stop()` or `start()` returns True, returns False, or raises.
pub data Answer : Type 0 where
  succeeds refuses breaks : Answer

-- What was done to the machine, the latest first: a `stop()` that returned True, a call of
-- `start()` with its answer, an `is_alive()` that denied it, a rename, an extraction.
pub data Call : Type 0 where
  stopped dead : Daemon → Call
  started : Daemon → Answer → Call
  renamed : Rename → Call
  extracted : Daemon → Call

pub record World : Type 0 where
  pub controller_places : Places
  pub bridge_places : Places
  pub calls : List Call

-- A control's optional `is_alive()`.
pub data Probe : Type 0 where
  unavailable broken : Probe
  answering : Bool → Probe

-- An extraction runs to its end, fails before the directory is there, or leaves some files.
pub data Extraction : Type 0 where
  complete no_folder : Extraction
  partly : Tree → Extraction

pub record Host : Type 0 where
  pub bridge_probe : Probe
  pub bridge_stop : Answer
  pub bridge_start : Answer
  pub controller_stop : Answer
  pub controller_start : Answer
  pub controller_restart : Answer  -- the start after an undoing
  pub rename_raises : Rename → Bool
  pub extraction : Daemon → Extraction

abbrev pub is_success : Answer → Bool
is_success succeeds = true
is_success _ = false

abbrev pub note : Call → World → World
note c w = record w { calls = c ∷ w.calls }

-- `os.rename` refuses a target that is a directory with files in it.
abbrev pub is_occupied : Option Tree → Bool
is_occupied (some (_ ∷ _)) = true
is_occupied _ = false

unfoldable pub set_aside : Places → Option Places
set_aside p = if is_occupied p.aside then none else some (record p { live = none; aside = p.live })

unfoldable pub put_back : Places → Option Places
put_back p = if is_occupied p.live then none else some (record p { live = p.aside; aside = none })

unfoldable pub set_failed : Places → Option Places
set_failed p =
    if is_occupied p.failed then none else some (record p { live = none; failed = p.live })

abbrev on_controller : (Places → Option Places) → World → Option World
on_controller move w = elim (move w.controller_places) [
  | none ↦ none
  | some p ↦ some (record w { controller_places = p })
]

abbrev on_bridge : (Places → Option Places) → World → Option World
on_bridge move w = elim (move w.bridge_places) [
  | none ↦ none
  | some p ↦ some (record w { bridge_places = p })
]

unfoldable pub effect : Rename → World → Option World
effect controller_aside = on_controller set_aside
effect controller_undone = on_controller put_back
effect controller_failed = on_controller set_failed
effect controller_back = on_controller put_back
effect bridge_aside = on_bridge set_aside
effect bridge_failed = on_bridge set_failed
effect bridge_back = on_bridge put_back

-- `os.rename(…)`; `none` is its OSError, which leaves both names as they were.
unfoldable pub rename : Host → Rename → World → Option World
unfolding effect set_aside put_back set_failed
rename h r w =
    if h.rename_raises r
    then none
    else elim (effect r w) [ none ↦ none | some v ↦ some (note (renamed r) v) ]
