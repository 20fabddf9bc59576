-- ===== src/Backup/Snapshots/Failing.antt =====
-- What a backup that raises leaves of the backups.
use mathlib.Core.Path.{ap}
use mathlib.Core.List.{reverse-append}
use indigo_matter.Prelude.{
  ◌⊎◌, str_eq, if◌then◌else◌, ◌||◌, not, is_some, ℕ, arith, String, Bool, true, false, Option, none,
  some, List, [], ◌∷◌, ◌++◌, ◌≡◌, ◌∙◌, refl, Bool-cases, inl, inr, eq_iff,
}
use indigo_matter.Python.{codes, joined}
use indigo_matter.Python.Table.{
  lookup, insert, remove, text_key, IsUnique, insert-IsUnique, lookup-insert, lookup-remove,
}
use indigo_matter.Python.Sorting.{sort, take}
use indigo_matter.Backup.{Tree}
use indigo_matter.Backup.Snapshots.{
  File, Folder, is_backup, ends_with, entries, is_newer, list_backups, Disk, runtime_error,
  os_error, Raised, raised, archive_path, tmp_path, tmp_suffix, backup_suffix, file_of, cleaned,
  members_of, returned, prune_backups, default_keep, Created, after_removal, replaced, judged,
  opened, checked, zipped, create_backup,
}

codes-joined : (s t : String) → codes (joined s t) ≡ codes s ++ codes t
unfolding joined
codes-joined String.[] t = refl
codes-joined (String.◌∷◌ c s) t = rw (codes-joined s t) refl

-- The name of a `.tmp` is none of a backup.
tmp_is_no_zip : (s : String) → ends_with (joined s tmp_suffix) backup_suffix ≡ false
unfolding ends_with
tmp_is_no_zip s = rw (codes-joined s tmp_suffix, reverse-append (codes s) (codes tmp_suffix)) refl

unfoldable pub IsOther : String → Type 0
IsOther name = (file : File) → is_backup name file ≡ false

pub tmp_path-IsOther : (disk : Disk) → IsOther (tmp_path disk)
unfolding IsOther is_backup tmp_path
tmp_path-IsOther disk file = ground (arith, tmp_is_no_zip (archive_path disk))

pub entries-insert :
    (name : String) (file : File) (folder : Folder)
    → IsOther name
    → entries (insert name file folder) ≡ entries folder
unfolding IsOther entries insert
entries-insert name file [] other = rw (other file) refl
entries-insert name file ((n, g) ∷ folder) other = elim (Bool-cases (str_eq n name)) [
  | inl is ↦ rw (is, (eq_iff n name).0 is, other file, other g) refl
  | inr is ↦ rw (is, entries-insert name file folder other) refl
]

pub entries-remove_other :
    (name : String) (folder : Folder) → IsOther name → entries (remove name folder) ≡ entries folder
unfolding IsOther entries remove
entries-remove_other name [] other = refl
entries-remove_other name ((n, g) ∷ folder) other = elim (Bool-cases (str_eq n name)) [
  | inl is ↦ rw (is, (eq_iff n name).0 is, other g) refl
  | inr is ↦ rw (is, entries-remove_other name folder other) refl
]

entries-after_removal :
    (goes : Bool) (name : String) (folder : Folder)
    → IsOther name
    → entries (after_removal goes name folder) ≡ entries folder
unfolding after_removal
entries-after_removal true name folder other = entries-remove_other name folder other
entries-after_removal false name folder other = refl

entries-cleaned :
    (disk : Disk) (error : Raised) (folder : Folder)
    → entries (cleaned disk error folder).1 ≡ entries folder
unfolding cleaned
entries-cleaned disk error folder =
    entries-after_removal disk.removes_tmp (tmp_path disk) folder (tmp_path-IsOther disk)

-- What a backup that raises may leave: the list as it was; or, where only the listing of the pruning
-- raised, the whole archive under its name, and every other file but the `.tmp` as it was.
unfoldable pub IsUnharmed : Disk → File → Folder → Folder → Type 0
IsUnharmed disk file before after =
    (list_backups after ≡ list_backups before)
    ⊎ ((disk.lists ≡ false)
        × (disk.bad_member ≡ none)
        × ((k : String)
            → lookup k after ≡ (
                if str_eq (archive_path disk) k
                then some file
                else if str_eq (tmp_path disk) k
                then none
                else lookup k before)))

-- The outcome is a path, or such a folder.
unfoldable IsSettled : Disk → File → Folder → Created × Folder → Type 0
IsSettled disk file before made =
    (error : Raised) → made.0 ≡ raised error → IsUnharmed disk file before made.1

-- The folder with the `.tmp` in it.
abbrev with_tmp : Disk → File → Folder → Folder
with_tmp disk tmp before = insert (tmp_path disk) tmp before

cleaned-IsSettled :
    (disk : Disk) (file tmp : File) (before : Folder) (error : Raised)
    → IsSettled disk file before (cleaned disk error (with_tmp disk tmp before))
unfolding IsSettled IsUnharmed list_backups
cleaned-IsSettled disk file tmp before error raised_error h = inl (
    ap (sort is_newer) (
      entries-cleaned disk error (with_tmp disk tmp before)
      ∙ entries-insert (tmp_path disk) tmp before (tmp_path-IsOther disk)))

lookup_in_place :
    (disk : Disk) (file tmp : File) (before : Folder) (k : String)
    → IsUnique before
    → lookup k (insert (archive_path disk) file (remove (tmp_path disk) (with_tmp disk tmp before)))
      ≡ (if str_eq (archive_path disk) k
          then some file
          else if str_eq (tmp_path disk) k
          then none
          else lookup k before)
lookup_in_place disk file tmp before k u = ground (
  arith,
  lookup-insert (archive_path disk) k file (remove (tmp_path disk) (with_tmp disk tmp before)),
  lookup-remove (tmp_path disk) k (with_tmp disk tmp before)
      (insert-IsUnique (tmp_path disk) tmp before u),
  lookup-insert (tmp_path disk) k tmp before,
)

returned-IsSettled :
    (lists : Bool) (disk : Disk) (file tmp : File) (before : Folder)
    → disk.lists ≡ lists
    → disk.bad_member ≡ none
    → IsUnique before
    → IsSettled disk file before (
        returned (archive_path disk) (
          prune_backups lists disk.removable default_keep
            (insert (archive_path disk) file (remove (tmp_path disk) (with_tmp disk tmp before)))))
unfolding IsSettled IsUnharmed returned prune_backups
returned-IsSettled true disk file tmp before e good u error h = cc
returned-IsSettled false disk file tmp before e good u error h =
    inr (e, good, λ k. lookup_in_place disk file tmp before k u)

replaced-IsSettled :
    (goes : Bool) (disk : Disk) (file tmp : File) (before : Folder)
    → disk.bad_member ≡ none
    → IsUnique before
    → IsSettled disk file before (replaced goes disk file (with_tmp disk tmp before))
unfolding replaced
replaced-IsSettled false disk file tmp before good u =
    cleaned-IsSettled disk file tmp before os_error
replaced-IsSettled true disk file tmp before good u =
    returned-IsSettled disk.lists disk file tmp before refl good u

judged-IsSettled :
    (bad : Bool) (disk : Disk) (file tmp : File) (before : Folder)
    → (bad ≡ false → disk.bad_member ≡ none)
    → IsUnique before
    → IsSettled disk file before (judged bad disk file (with_tmp disk tmp before))
unfolding judged
judged-IsSettled true disk file tmp before good u =
    cleaned-IsSettled disk file tmp before runtime_error
judged-IsSettled false disk file tmp before good u =
    replaced-IsSettled disk.replaces disk file tmp before (good refl) u

pub no_bad_member :
    (sized : Bool) (bad : Option String) → (not sized || is_some bad) ≡ false → bad ≡ none
no_bad_member sized bad h = ground arith

checked-IsSettled :
    (disk : Disk) (members : List (String × String)) (tmp : File) (before : Folder)
    → IsUnique before
    → IsSettled disk (file_of disk members) before (checked disk members (with_tmp disk tmp before))
unfolding checked
checked-IsSettled disk [] tmp before u =
    cleaned-IsSettled disk (file_of disk []) tmp before runtime_error
checked-IsSettled disk (m ∷ ms) tmp before u =
    judged-IsSettled _ disk (file_of disk (m ∷ ms)) tmp before
      (no_bad_member disk.is_sized disk.bad_member) u

zipped-IsSettled :
    (disk : Disk) (members : List (String × String)) (failing : Option ℕ) (before : Folder)
    → IsUnique before
    → IsSettled disk (file_of disk members) before (zipped disk members failing before)
unfolding zipped
zipped-IsSettled disk members (some n) before u =
    cleaned-IsSettled disk (file_of disk members) (file_of disk (take n members)) before os_error
zipped-IsSettled disk members none before u =
    checked-IsSettled disk members (file_of disk members) before u

opened-IsSettled :
    (made : Bool) (disk : Disk) (members : List (String × String)) (before : Folder)
    → IsUnique before
    → IsSettled disk (file_of disk members) before (opened made disk members before)
unfolding opened IsSettled IsUnharmed
opened-IsSettled false disk members before u error h = inl refl
opened-IsSettled true disk members before u error h =
    zipped-IsSettled disk members disk.fails_after before u error h

-- A backup that raises leaves the list of backups as it was, so that an archive that was not written
-- to its end, or did not pass its checks, is never among them; or, where the rename went through and
-- only the listing of the pruning raised, the archive stands whole and uncorrupted under its name, and
-- every other file but the `.tmp` is as it was. No name stands twice in the directory.
pub create_backup-IsUnharmed :
    (disk : Disk) (files : Tree) (bridge : Option Tree) (folder : Folder) (error : Raised)
    → IsUnique folder
    → (create_backup disk (some files) bridge folder).0 ≡ raised error
    → IsUnharmed disk
        (file_of disk (members_of files bridge))
        folder
        (create_backup disk (some files) bridge folder).1
unfolding create_backup IsSettled IsUnharmed
create_backup-IsUnharmed disk [] bridge folder error u h = inl refl
create_backup-IsUnharmed disk (file ∷ files) bridge folder error u h =
    opened-IsSettled disk.makes_dirs disk (members_of (file ∷ files) bridge) folder u error h
