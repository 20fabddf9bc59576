-- ===== src/Backup/Archive.antt =====
-- fabric_backup.py: the members of an archive, and the checks before anything is touched.
pub mod Sides
use text.Mathlib.Text.{starts_with}
use indigo_matter.Prelude.{
  String, Bool, true, false, ◌&&◌, not, Option, none, some, List, [], ◌∷◌, str_eq, if◌then◌else◌,
}
use indigo_matter.Python.{joined}
use indigo_matter.Python.Table.{Table, insert, text_key}
use indigo_matter.Backup.{Tree}

-- A zip file as the `zipfile` module reads it: each member's name and content, and the name that
-- `testzip()` finds corrupt.
pub record Archive : Type 0 where
  pub is_zipfile : Bool
  pub bad_member : Option String
  pub members : List (String × String)

abbrev pub bridge_member_prefix : String
bridge_member_prefix = "bridge-node/"

pub names : List (String × String) → List String
names [] = []
names ((n, _) ∷ rest) = n ∷ names rest

-- `member[len(prefix):]`
unfoldable pub after_front : String → String → String
after_front String.[] s = s
after_front (String.◌∷◌ _ p) String.[] = String.[]
after_front (String.◌∷◌ _ p) (String.◌∷◌ _ s) = after_front p s

abbrev is_empty : String → Bool
is_empty String.[] = true
is_empty _ = false

-- Whether a member is on the side of a prefix; the controller's side has the empty prefix.
unfoldable pub is_for : String → String → Bool
is_for prefix name =
    if is_empty prefix
    then not (starts_with name bridge_member_prefix)
    else starts_with name prefix && not (str_eq name prefix)

unfoldable pub members_for : List (String × String) → String → List (String × String)
members_for [] prefix = []
members_for ((n, content) ∷ rest) prefix =
    let later = members_for rest prefix in if is_for prefix n then (n, content) ∷ later else later

-- `bridge_members_in(archive_path)`
unfoldable pub bridge_members_in : List (String × String) → List String
bridge_members_in [] = []
bridge_members_in ((n, _) ∷ rest) =
    let later = bridge_members_in rest in
    if starts_with n bridge_member_prefix then n ∷ later else later

abbrev ends_in_slash : String → Bool
ends_in_slash String.[] = true
ends_in_slash (String.◌∷◌ c String.[]) = str_eq (String.◌∷◌ c String.[]) "/"
ends_in_slash (String.◌∷◌ _ s) = ends_in_slash s

-- `os.path.join(dest, rel)`
unfoldable pub join : String → String → String
join dest rel =
    if starts_with rel "/"
    then rel
    else if ends_in_slash dest
    then joined dest rel
    else joined dest (joined "/" rel)

-- `os.path.realpath` of the machine stands for the paths that the system resolves.
module _ (realpath : String → String) where
  unfoldable pub lands_inside : String → String → String → Bool
  lands_inside dest prefix member =
      let root = realpath dest in
      let target = realpath (join dest (after_front prefix member)) in
      if str_eq target root then true else starts_with target (joined root "/")

  -- `_assert_no_zip_slip`: the first member that would land outside, if there is one.
  unfoldable pub first_unsafe : List (String × String) → String → String → Option String
  first_unsafe [] dest prefix = none
  first_unsafe ((n, _) ∷ rest) dest prefix =
      let later = first_unsafe rest dest prefix in
      if is_for prefix n && not (lands_inside dest prefix n) then some n else later

-- The files that an extraction of one side adds to a directory.
unfoldable pub extract_into : List (String × String) → String → Tree → Tree
extract_into [] prefix t = t
extract_into ((n, content) ∷ rest) prefix t =
    let entered = extract_into rest prefix (insert (after_front prefix n) content t) in
    let passed = extract_into rest prefix t in if is_for prefix n then entered else passed
