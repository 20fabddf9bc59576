-- ===== src/Backup/Snapshots/Examples.antt =====
-- A directory of some backups, a backup made in it, and the theorems at them.
use indigo_matter.Prelude.{
  is_some, ℕ, true, false, not, none, some, [], ◌∷◌, ◌++◌, ◌≡◌, refl, inr, arith,
}
use indigo_matter.Python.Table.{lookup, remove, insert, text_key, IsUnique}
use indigo_matter.Python.Sorting.{take, drop, filter, sort, insert_sorted}
use indigo_matter.Backup.{Tree}
use indigo_matter.Backup.Snapshots.{
  File, Folder, list_backups, prune_backups, Disk, written, raised, returned, os_error,
  archive_path, create_backup, members_of, file_of, entries, is_backup, ends_with, is_newer,
  remove_each, opened, zipped, cleaned, add_tree, checked, judged, replaced, tmp_path,
}
use indigo_matter.Backup.Snapshots.Pruned.{list_backups-prune_backups}
use indigo_matter.Backup.Snapshots.Failing.{IsUnharmed, create_backup-IsUnharmed}
use indigo_matter.Backup.Snapshots.Newest.{IsOlder}
use indigo_matter.Python.{joined}
use indigo_matter.Backup.Snapshots.Stored.{create_backup-stored}

abbrev at_time : ℕ → File
at_time t = record {
  is_file = true;
  mtime = t;
  archive = record { is_zipfile = true; bad_member = none; members = ("1", "a") ∷ [] };
}

abbrev folder : Folder
folder =
    ("fabric-2.zip", at_time 20) ∷ ("notes.txt", at_time 50) ∷ ("fabric-1.zip", at_time 10) ∷ []

folder-IsUnique : IsUnique folder
unfolding lookup
folder-IsUnique = (refl, (refl, (refl, tt)))

list_backups-prune_backups_example :
    list_backups (prune_backups true (λ _. true) 1 folder).1
    ≡ take 1 (list_backups folder) ++ filter (λ b. not true) (drop 1 (list_backups folder))
list_backups-prune_backups_example =
    list_backups-prune_backups true (λ _. true) 1 folder folder-IsUnique

pruned_test :
    list_backups (prune_backups true (λ _. true) 1 folder).1
    ≡ record { filename = "fabric-2.zip"; mtime = 20 } ∷ []
unfolding list_backups sort entries prune_backups remove_each is_backup ends_with insert_sorted
    is_newer remove
pruned_test = refl

abbrev disk : Disk
disk = record {
  stamp = "3";
  now = 30;
  makes_dirs = true;
  fails_after = none;
  is_sized = true;
  bad_member = none;
  replaces = true;
  removes_tmp = true;
  lists = true;
  removable = λ _. true;
}

abbrev full_disk : Disk
full_disk = record disk { fails_after = some 0; removes_tmp = false }

abbrev storage : Tree
storage = ("1", "a") ∷ []

create_backup-IsUnharmed_example :
    IsUnharmed full_disk
      (file_of full_disk (members_of storage none))
      folder
      (create_backup full_disk (some storage) none folder).1
unfolding create_backup opened zipped cleaned
create_backup-IsUnharmed_example =
    create_backup-IsUnharmed full_disk storage none folder os_error folder-IsUnique refl

-- The listing raises after the rename: the archive is there, and the path is not returned.
unlisted_test :
    ((create_backup (record disk { lists = false }) (some storage) none folder).0 ≡ raised os_error)
    × (is_some (
          lookup "fabric-3.zip"
            (create_backup (record disk { lists = false }) (some storage) none folder).1)
        ≡ true)
unfolding create_backup opened zipped checked judged replaced returned archive_path joined tmp_path
    lookup insert remove prune_backups members_of add_tree
unlisted_test = (refl, refl)

create_backup-stored_example :
    ("fabric-3.zip" ≡ archive_path disk)
    × (lookup "fabric-3.zip" (create_backup disk (some storage) none folder).1
        ≡ some (file_of disk (members_of storage none)))
    × (disk.bad_member ≡ none)
unfolding create_backup opened zipped checked judged replaced returned prune_backups cleaned
    archive_path joined IsOlder entries is_backup ends_with members_of add_tree
create_backup-stored_example =
    create_backup-stored disk storage none folder "fabric-3.zip" folder-IsUnique
      (inr (omega arith), (inr (omega arith), tt)) refl

-- Ten backups of a clock that was then set back.
abbrev ahead : Folder
ahead =
    ("fabric-20.zip", at_time 90)
    ∷ ("fabric-21.zip", at_time 91)
    ∷ ("fabric-22.zip", at_time 92)
    ∷ ("fabric-23.zip", at_time 93)
    ∷ ("fabric-24.zip", at_time 94)
    ∷ ("fabric-25.zip", at_time 95)
    ∷ ("fabric-26.zip", at_time 96)
    ∷ ("fabric-27.zip", at_time 97)
    ∷ ("fabric-28.zip", at_time 98)
    ∷ ("fabric-29.zip", at_time 99)
    ∷ []

-- The new backup is the oldest, so the pruning removes it, and its path is returned.
new_backup_is_pruned :
    ((create_backup disk (some storage) none ahead).0 ≡ written "fabric-3.zip")
    × (lookup "fabric-3.zip" (create_backup disk (some storage) none ahead).1 ≡ none)
unfolding create_backup opened zipped checked judged replaced returned archive_path joined tmp_path
    lookup insert remove prune_backups list_backups sort insert_sorted entries is_backup ends_with
    is_newer remove_each members_of add_tree
new_backup_is_pruned = (refl, refl)
