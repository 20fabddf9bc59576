-- ===== src/Backup/Snapshots.antt =====
-- fabric_backup.py: `create_backup`, `list_backups` and `prune_backups` over the files of the
-- `backups/` directory. An absent directory is an empty one. `os.walk` gives the files of a
-- directory as they are when the archive is written.
mod Distinct
mod Pruned
mod Failing
mod Newest
mod Stored
mod Examples
use text.Mathlib.Text.{starts_with}
use mathlib.Core.List.{reverse}
use indigo_matter.Prelude.{
  ℕ, zero, suc, String, Bool, true, false, not, ◌&&◌, ◌||◌, Option, none, some, List, [], ◌∷◌, ◌++◌,
  ltb, ◌==◌, if◌then◌else◌, is_some, any, str_eq,
}
use indigo_matter.Python.{codes, joined}
use indigo_matter.Python.Table.{Table, insert, remove, text_key}
use indigo_matter.Python.Sorting.{sort, take, drop}
use indigo_matter.Backup.{Tree}
use indigo_matter.Backup.Archive.{Archive, bridge_member_prefix}

-- A file of the directory, with its time of modification; it is no file where it is a directory.
pub record File : Type 0 where
  pub is_file : Bool
  pub mtime : ℕ
  pub archive : Archive

abbrev pub Folder : Type 0
Folder = Table String File

-- An entry of `list_backups`.
pub record Backup : Type 0 where
  pub filename : String
  pub mtime : ℕ

is_front : List ℕ → List ℕ → Bool
is_front [] s = true
is_front (c ∷ p) [] = false
is_front (c ∷ p) (d ∷ s) = let rest = is_front p s in (c == d) && rest

-- `text.endswith(end)`
unfoldable pub ends_with : String → String → Bool
unfolding is_front
ends_with text end = is_front (reverse (codes end)) (reverse (codes text))

abbrev pub backup_prefix : String
backup_prefix = "fabric-"

abbrev pub backup_suffix : String
backup_suffix = ".zip"

unfoldable pub is_backup : String → File → Bool
is_backup name file = starts_with name backup_prefix && ends_with name backup_suffix && file.is_file

-- The backups in the order of the directory.
unfoldable pub entries : Folder → List Backup
entries [] = []
entries ((name, file) ∷ folder) =
    let rest = entries folder in
    if is_backup name file then record { filename = name; mtime = file.mtime } ∷ rest else rest

-- `a < b` on texts.
unfoldable pub is_less : List ℕ → List ℕ → Bool
is_less a [] = false
is_less [] (d ∷ b) = true
is_less (c ∷ a) (d ∷ b) = let rest = is_less a b in ltb c d || ((c == d) && rest)

-- The key `(mtime, filename)`, in reverse.
unfoldable pub is_newer : Backup → Backup → Bool
is_newer a b =
    ltb b.mtime a.mtime || ((b.mtime == a.mtime) && is_less (codes b.filename) (codes a.filename))

unfoldable pub list_backups : Folder → List Backup
list_backups folder = sort is_newer (entries folder)

-- The files whose removal goes through are removed.
unfoldable pub remove_each : (String → Bool) → List Backup → Folder → Folder
remove_each removable [] folder = folder
remove_each removable (backup ∷ stale) folder =
    remove_each removable stale
      (if removable backup.filename then remove backup.filename folder else folder)

unfoldable pub removed_of : (String → Bool) → List Backup → List String
removed_of removable [] = []
removed_of removable (backup ∷ stale) =
    let rest = removed_of removable stale in
    if removable backup.filename then backup.filename ∷ rest else rest

-- The removed filenames, and what is left; where the listing raises, nothing is removed.
unfoldable pub prune_backups : Bool → (String → Bool) → ℕ → Folder → Option (List String) × Folder
prune_backups false removable keep folder = (none, folder)
prune_backups true removable keep folder =
    let stale = drop keep (list_backups folder) in
    (some (removed_of removable stale), remove_each removable stale folder)

abbrev pub default_keep : ℕ
default_keep = 10

-- Every file of a tree as a member under the prefix.
unfoldable pub add_tree : Tree → String → List (String × String)
add_tree [] prefix = []
add_tree ((name, content) ∷ tree) prefix = (joined prefix name, content) ∷ add_tree tree prefix

-- How the calls of the system answer during one backup, and its name and time.
pub record Disk : Type 0 where
  pub stamp : String
  pub now : ℕ
  pub makes_dirs : Bool
  pub fails_after : Option ℕ  -- writing raises after so many members
  pub is_sized : Bool  -- the file has a size
  pub bad_member : Option String  -- what `testzip()` finds
  pub replaces : Bool
  pub removes_tmp : Bool
  pub lists : Bool  -- the listing of the pruning goes through
  pub removable : String → Bool

pub data Raised : Type 0 where
  file_not_found runtime_error os_error : Raised

pub data Created : Type 0 where
  written : String → Created
  raised : Raised → Created

unfoldable pub archive_path : Disk → String
archive_path disk = joined backup_prefix (joined disk.stamp backup_suffix)

abbrev pub tmp_suffix : String
tmp_suffix = ".tmp"

unfoldable pub tmp_path : Disk → String
tmp_path disk = joined (archive_path disk) tmp_suffix

unfoldable pub bridge_tree : Option Tree → List (String × String)
bridge_tree none = []
bridge_tree (some tree) = add_tree tree bridge_member_prefix

unfoldable pub members_of : Tree → Option Tree → List (String × String)
members_of storage bridge = add_tree storage "" ++ bridge_tree bridge

abbrev pub file_of : Disk → List (String × String) → File
file_of disk members = record {
  is_file = true;
  mtime = disk.now;
  archive = record { is_zipfile = true; bad_member = disk.bad_member; members = members };
}

-- `os.remove`, which goes through or raises.
unfoldable pub after_removal : Bool → String → Folder → Folder
after_removal true name folder = remove name folder
after_removal false name folder = folder

-- The `except` block: the `.tmp` is removed, if that goes through, and the error raised again.
unfoldable pub cleaned : Disk → Raised → Folder → Created × Folder
cleaned disk error folder = (raised error, after_removal disk.removes_tmp (tmp_path disk) folder)

-- The path is returned, unless the pruning raised.
unfoldable pub returned : String → Option (List String) × Folder → Created × Folder
returned path (some removed, folder) = (written path, folder)
returned path (none, folder) = (raised os_error, folder)

-- The written archive under its name; the flag says that the rename goes through.
unfoldable pub replaced : Bool → Disk → File → Folder → Created × Folder
replaced false disk file folder = cleaned disk os_error folder
replaced true disk file folder = returned (archive_path disk) (
    prune_backups disk.lists disk.removable default_keep
      (insert (archive_path disk) file (remove (tmp_path disk) folder)))

-- The checks of the written archive; the flag says that it has no size or is corrupt.
unfoldable pub judged : Bool → Disk → File → Folder → Created × Folder
judged true disk file folder = cleaned disk runtime_error folder
judged false disk file folder = replaced disk.replaces disk file folder

unfoldable pub checked : Disk → List (String × String) → Folder → Created × Folder
checked disk [] folder = cleaned disk runtime_error folder
checked disk (member ∷ members) folder =
    judged (not disk.is_sized || is_some disk.bad_member) disk (file_of disk (member ∷ members))
      folder

-- The archive is written to the `.tmp` name.
unfoldable pub zipped : Disk → List (String × String) → Option ℕ → Folder → Created × Folder
zipped disk members (some n) folder =
    cleaned disk os_error (insert (tmp_path disk) (file_of disk (take n members)) folder)
zipped disk members none folder =
    checked disk members (insert (tmp_path disk) (file_of disk members) folder)

-- The flag says that the directory is there, or could be made.
unfoldable pub opened : Bool → Disk → List (String × String) → Folder → Created × Folder
opened false disk members folder = (raised os_error, folder)
opened true disk members folder = zipped disk members disk.fails_after folder

-- The storage directory may be missing; the bridge's is none where it is not asked for.
unfoldable pub create_backup : Disk → Option Tree → Option Tree → Folder → Created × Folder
create_backup disk none bridge folder = (raised file_not_found, folder)
create_backup disk (some []) bridge folder = (raised file_not_found, folder)
create_backup disk (some (file ∷ files)) bridge folder =
    opened disk.makes_dirs disk (members_of (file ∷ files) bridge) folder
