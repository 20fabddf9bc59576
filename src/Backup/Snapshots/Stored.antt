-- ===== src/Backup/Snapshots/Stored.antt =====
-- A backup that returns a path leaves the whole of the storage under it.
use indigo_matter.Prelude.{
  ℕ, String, Bool, true, false, Option, none, some, List, [], ◌∷◌, ◌≡◌, refl, sym, All,
}
use indigo_matter.Python.Table.{
  lookup, insert, remove, text_key, IsUnique, remove-IsUnique, insert-IsUnique,
}
use indigo_matter.Backup.{Tree}
use indigo_matter.Backup.Snapshots.Failing.{
  no_bad_member, tmp_path-IsOther, entries-insert, entries-remove_other,
}
use indigo_matter.Backup.Snapshots.Newest.{IsOlder, lookup-prune_backups}
use indigo_matter.Backup.Snapshots.{
  File, Folder, entries, Disk, Created, written, archive_path, tmp_path, members_of, file_of,
  cleaned, returned, prune_backups, default_keep, replaced, judged, checked, zipped, opened,
  create_backup,
}

-- The outcome is no path, or the path of the archive, under which the file stands.
unfoldable IsStored : Disk → File → Created × Folder → Type 0
IsStored disk file made =
    (path : String)
    → made.0 ≡ written path
    → (path ≡ archive_path disk) × (lookup path made.1 ≡ some file) × (disk.bad_member ≡ none)

-- Before the rename: no name stands twice, and every other backup was modified before.
record IsReady (disk : Disk) (folder : Folder) : Type 0 where
  unique : IsUnique folder
  older : All (IsOlder (archive_path disk) disk.now) (entries folder)

written_injective :
    (one other : String) → ◌≡◌ {A = Created} (written one) (written other) → one ≡ other
written_injective one other h = cc

returned-IsStored :
    (lists : Bool) (disk : Disk) (members : List (String × String)) (folder : Folder)
    → IsReady disk folder
    → disk.bad_member ≡ none
    → IsStored disk (file_of disk members) (
        returned (archive_path disk) (
          prune_backups lists disk.removable default_keep
            (insert (archive_path disk) (file_of disk members) folder)))
unfolding IsStored returned prune_backups
returned-IsStored false disk members folder ready good path h = cc
returned-IsStored true disk members folder ready good path h =
    let same = written_injective (archive_path disk) path h in
    (
      sym same,
      rw (sym same) (
          lookup-prune_backups disk.removable 9 (archive_path disk) (file_of disk members) folder
            ready.unique ready.older),
      good,
    )

replaced-IsStored :
    (goes : Bool) (disk : Disk) (members : List (String × String)) (folder : Folder)
    → IsReady disk folder
    → disk.bad_member ≡ none
    → IsStored disk (file_of disk members) (replaced goes disk (file_of disk members) folder)
unfolding IsStored replaced cleaned
replaced-IsStored false disk members folder ready good path h = cc
replaced-IsStored true disk members folder ready good path h =
    returned-IsStored disk.lists disk members (remove (tmp_path disk) folder)
      (record {
        unique = remove-IsUnique (tmp_path disk) folder ready.unique;
        older =
            rw (entries-remove_other (tmp_path disk) folder (tmp_path-IsOther disk)) ready.older;
      })
      good path h

judged-IsStored :
    (bad : Bool) (disk : Disk) (members : List (String × String)) (folder : Folder)
    → (bad ≡ false → disk.bad_member ≡ none)
    → IsReady disk folder
    → IsStored disk (file_of disk members) (judged bad disk (file_of disk members) folder)
unfolding judged IsStored cleaned
judged-IsStored true disk members folder good ready path h = cc
judged-IsStored false disk members folder good ready path h =
    replaced-IsStored disk.replaces disk members folder ready (good refl) path h

checked-IsStored :
    (disk : Disk) (members : List (String × String)) (folder : Folder)
    → IsReady disk folder
    → IsStored disk (file_of disk members) (checked disk members folder)
unfolding checked IsStored cleaned
checked-IsStored disk [] folder ready path h = cc
checked-IsStored disk (m ∷ ms) folder ready path h =
    judged-IsStored _ disk (m ∷ ms) folder (no_bad_member disk.is_sized disk.bad_member) ready path
      h

with_tmp-IsReady :
    (disk : Disk) (file : File) (folder : Folder)
    → IsReady disk folder
    → IsReady disk (insert (tmp_path disk) file folder)
with_tmp-IsReady disk file folder ready = record {
  unique = insert-IsUnique (tmp_path disk) file folder ready.unique;
  older = rw (entries-insert (tmp_path disk) file folder (tmp_path-IsOther disk)) ready.older;
}

zipped-IsStored :
    (disk : Disk) (members : List (String × String)) (failing : Option ℕ) (folder : Folder)
    → IsReady disk folder
    → IsStored disk (file_of disk members) (zipped disk members failing folder)
unfolding zipped IsStored cleaned
zipped-IsStored disk members (some n) folder ready path h = cc
zipped-IsStored disk members none folder ready path h =
    checked-IsStored disk members (insert (tmp_path disk) (file_of disk members) folder)
      (with_tmp-IsReady disk (file_of disk members) folder ready) path h

opened-IsStored :
    (made : Bool) (disk : Disk) (members : List (String × String)) (folder : Folder)
    → IsReady disk folder
    → IsStored disk (file_of disk members) (opened made disk members folder)
unfolding opened IsStored
opened-IsStored false disk members folder ready path h = cc
opened-IsStored true disk members folder ready path h =
    zipped-IsStored disk members disk.fails_after folder ready path h

-- A backup that returns a path has, after the pruning, an archive under it that is not corrupt and
-- whose members are the files of the storage directory and, under their prefix, those of the bridge's
-- if it is asked for, if each backup of another name was modified before and no name stands twice in
-- the directory.
pub create_backup-stored :
    (disk : Disk) (files : Tree) (bridge : Option Tree) (folder : Folder) (path : String)
    → IsUnique folder
    → All (IsOlder (archive_path disk) disk.now) (entries folder)
    → (create_backup disk (some files) bridge folder).0 ≡ written path
    → (path ≡ archive_path disk)
      × (lookup path (create_backup disk (some files) bridge folder).1
          ≡ some (file_of disk (members_of files bridge)))
      × (disk.bad_member ≡ none)
unfolding create_backup IsStored
create_backup-stored disk [] bridge folder path u o h = cc
create_backup-stored disk (file ∷ files) bridge folder path u o h =
    opened-IsStored disk.makes_dirs disk (members_of (file ∷ files) bridge) folder
      (record { unique = u; older = o }) path h
