-- ===== src/Backup/Restore/Examples.antt =====
-- Restores of a small archive, and the theorems at them.
use indigo_matter.Prelude.{
  String, Bool, true, false, Option, none, some, List, [], ◌∷◌, ◌≡◌, refl, str_eq, if◌then◌else◌,
}
use indigo_matter.Python.{joined}
use indigo_matter.Python.Table.{text_key}
use indigo_matter.Backup.{
  Tree, Places, Rename, bridge_aside, controller_undone, World, succeeds, refuses, answering,
  complete, Host,
}
use indigo_matter.Backup.Archive.{Archive, is_for, after_front, join, lands_inside}
use indigo_matter.Backup.Stages.{Failure, failed}
use indigo_matter.Backup.Restore.{Paths, restore_backup}
use indigo_matter.Backup.Restore.Undone.{IsKept}
use indigo_matter.Backup.Restore.Kept.{members_of, restore_backup-IsKept}
use indigo_matter.Backup.Restore.Guarded.{restore_backup-IsGuarded}
use indigo_matter.Backup.Restore.Ready.{IsGuarded}
use indigo_matter.Backup.Restore.Rejected.{restore_backup_rejected}

-- A file system without links or dots.
abbrev plain : String → String
plain path = path

abbrev both : List (String × String)
both = ("fabric.json", "new") ∷ ("bridge-node/identity.json", "id") ∷ []

abbrev archive : Option Archive
archive = some (record { is_zipfile = true; bad_member = none; members = both })

abbrev paths : Paths
paths = record { storage_path = "/m/storage"; bridge_storage_path = some "/m/bridge" }

abbrev old_files : Tree
old_files = ("fabric.json", "old") ∷ []

abbrev old_places : Places
old_places = record { live = some old_files; aside = none; failed = none }

abbrev old_world : World
old_world = record { controller_places = old_places; bridge_places = old_places; calls = [] }

-- All goes well, but for the starts of the controller and the listed rename.
abbrev host : Rename → Bool → Host
host bad starts = record {
  bridge_probe = answering true;
  bridge_stop = succeeds;
  bridge_start = succeeds;
  controller_stop = succeeds;
  controller_start = if starts then succeeds else refuses;
  controller_restart = succeeds;
  rename_raises = λ r. is_same r bad;
  extraction = λ _. complete;
}
  where
    is_same : Rename → Rename → Bool
    is_same controller_undone controller_undone = true
    is_same bridge_aside bridge_aside = true
    is_same _ _ = false

abbrev escaping : Option Archive
escaping = some (record { is_zipfile = true; bad_member = none; members = ("../out", "") ∷ both })

-- A file system that resolves one path.
abbrev resolved : String → String
resolved path = if str_eq path "/m/storage/../out" then "/m/out" else path

restore_backup-IsKept_example :
    IsKept old_files
      (members_of archive)
      (restore_backup plain (host bridge_aside true) archive paths old_world)
restore_backup-IsKept_example =
    restore_backup-IsKept plain (host bridge_aside true) archive paths old_world old_files refl

restore_backup-IsGuarded_example :
    IsGuarded (restore_backup plain (host bridge_aside true) archive paths old_world).1.calls
restore_backup-IsGuarded_example =
    restore_backup-IsGuarded plain (host bridge_aside true) archive paths old_world tt

restore_backup_rejected_example :
    (f : Failure) × (restore_backup resolved (host bridge_aside true) escaping paths old_world
      ≡ (failed f, old_world))
unfolding is_for lands_inside join after_front joined
restore_backup_rejected_example =
    restore_backup_rejected resolved (host bridge_aside true) escaping paths old_world refl
