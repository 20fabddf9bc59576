-- ===== src/Backup/Snapshots/Newest.antt =====
-- The new backup stays through the pruning that follows it.
use mathlib.Core.Path.{ap}
use indigo_matter.Prelude.{
  ℕ, suc, String, Bool, true, false, none, some, List, [], ◌∷◌, ◌<◌, ◌⊎◌, if◌then◌else◌, str_eq,
  ◌≡◌, ◌∙◌, refl, sym, arith, All, Bool-cases, inl, inr, eq_iff,
}
use indigo_matter.Python.Table.{
  lookup, insert, remove, text_key, IsUnique, remove-IsUnique, insert-IsUnique, lookup-insert_same,
  lookup-remove,
}
use indigo_matter.Python.Sorting.{sort, drop, IsFirst, IsSorted, sort-IsSorted, All-sort}
use indigo_matter.Backup.Snapshots.Distinct.{
  newest_first, listed, IsDistinct, sort-IsDistinct, listed-entries, entries-IsDistinct,
  listed-drop, or_false,
}
use indigo_matter.Backup.Snapshots.{
  File, Folder, Backup, is_backup, entries, is_newer, list_backups, remove_each, prune_backups,
}

-- The backup has the name and the time, or another name and an earlier time.
unfoldable IsSettled : String → ℕ → Backup → Type 0
IsSettled name now b =
    ((str_eq b.filename name ≡ true) × (b.mtime ≡ now))
    ⊎ ((str_eq b.filename name ≡ false) × (b.mtime < now))

-- The backup was modified before, if it has another name.
unfoldable pub IsOlder : String → ℕ → Backup → Type 0
IsOlder name now b = (str_eq b.filename name ≡ true) ⊎ (b.mtime < now)

IsOlder-IsSettled :
    (name : String) (now : ℕ) (b : Backup)
    → str_eq b.filename name ≡ false
    → IsOlder name now b
    → IsSettled name now b
unfolding IsSettled IsOlder
IsOlder-IsSettled name now b other older = ground arith

All-IsSettled :
    (name : String) (now : ℕ) (bs : List Backup)
    → listed name bs ≡ false
    → All (IsOlder name now) bs
    → All (IsSettled name now) bs
unfolding IsSettled IsOlder listed
All-IsSettled name now [] h o = tt
All-IsSettled name now (b ∷ bs) h o =
    (ground (arith, o.0), All-IsSettled name now bs (ground arith) o.1)

All_if :
    (P : Backup → Type 0) (is : Bool) (b : Backup) (bs : List Backup)
    → (is ≡ true → P b)
    → All P bs
    → All P (if is then b ∷ bs else bs)
All_if P true b bs h k = (h refl, k)
All_if P false b bs h k = k

All_of_if :
    (P : Backup → Type 0) (is : Bool) (b : Backup) (bs : List Backup)
    → All P (if is then b ∷ bs else bs)
    → (is ≡ true → P b) × All P bs
All_of_if P true b bs h = (λ _. h.0, h.1)
All_of_if P false b bs h = (λ e. cc, h)

absent_of_name :
    (n name : String) (folder : Folder)
    → str_eq n name ≡ true
    → lookup n folder ≡ none
    → listed name (entries folder) ≡ false
absent_of_name n name folder same h =
    listed-entries name folder (sym (ap (λ k. lookup k folder) ((eq_iff n name).0 same)) ∙ h)

entries-insert-IsSettled :
    (name : String) (file : File) (folder : Folder)
    → IsUnique folder
    → All (IsOlder name file.mtime) (entries folder)
    → All (IsSettled name file.mtime) (entries (insert name file folder))
unfolding IsSettled IsOlder entries insert
entries-insert-IsSettled name file [] u o =
    All_if (IsSettled name file.mtime) (is_backup name file)
      (record { filename = name; mtime = file.mtime }) []
      (λ _. inl ((eq_iff name name).1 refl, refl)) tt
entries-insert-IsSettled name file ((n, f) ∷ folder) u o =
    let (first, others) =
      All_of_if (IsOlder name file.mtime) (is_backup n f) (record { filename = n; mtime = f.mtime })
        (entries folder) o in
    elim (Bool-cases (str_eq n name)) [
      | inl same ↦ rw same (
          All_if (IsSettled name file.mtime) (is_backup n file)
            (record { filename = n; mtime = file.mtime }) (entries folder) (λ _. inl (same, refl))
            (All-IsSettled name file.mtime (entries folder) (absent_of_name n name folder same u.0)
              others))
      | inr other ↦ rw other (
          All_if (IsSettled name file.mtime) (is_backup n f)
            (record { filename = n; mtime = f.mtime }) (entries (insert name file folder))
            (λ is.
              IsOlder-IsSettled name file.mtime (record { filename = n; mtime = f.mtime }) other
                (first is))
            (entries-insert-IsSettled name file folder u.1 others))
    ]

-- Where the newest backup has not the name, none has it.
not_behind :
    (name : String) (now : ℕ) (b : Backup) (bs : List Backup)
    → IsSettled name now b
    → All (IsSettled name now) bs
    → IsFirst is_newer b bs
    → listed b.filename bs ≡ false
    → listed name bs ≡ false
unfolding IsSettled listed is_newer
not_behind name now b [] s o f h = refl
not_behind name now b (c ∷ bs) s o f h = ground (
  arith,
  o.0,
  f.0,
  eq_iff b.filename name,
  eq_iff c.filename name,
  eq_iff c.filename b.filename,
  not_behind name now b bs s o.1 f.1,
)

lookup-remove_each :
    (removable : String → Bool) (name : String) (stale : List Backup) (folder : Folder)
    → IsUnique folder
    → listed name stale ≡ false
    → lookup name (remove_each removable stale folder) ≡ lookup name folder
unfolding remove_each listed
lookup-remove_each removable name [] folder u h = refl
lookup-remove_each removable name (b ∷ stale) folder u h =
    elim (Bool-cases (removable b.filename)) [
      | inl goes ↦
          let (apart, rest) = or_false (str_eq b.filename name) (listed name stale) h in
          rw goes (
            lookup-remove_each removable name stale (remove b.filename folder)
              (remove-IsUnique b.filename folder u) rest
            ∙ lookup-remove b.filename name folder u
            ∙ rw apart refl)
      | inr stays ↦ rw stays (
          lookup-remove_each removable name stale folder u
            (or_false (str_eq b.filename name) (listed name stale) h).1)
    ]

-- The names behind the newest.
newest_stays :
    (name : String) (now keep : ℕ) (bs : List Backup)
    → All (IsSettled name now) bs
    → IsSorted is_newer bs
    → IsDistinct bs
    → listed name (drop (suc keep) bs) ≡ false
unfolding listed
newest_stays name now keep [] s o d = refl
newest_stays name now keep (b ∷ bs) s o d =
    listed-drop keep name bs (not_behind name now b bs s.0 s.1 o.0 d.0)

-- A file under a name is kept by the pruning where each other backup was modified before it, if at
-- least one is to be kept and no name stands twice.
pub lookup-prune_backups :
    (removable : String → Bool) (keep : ℕ) (name : String) (file : File) (folder : Folder)
    → IsUnique folder
    → All (IsOlder name file.mtime) (entries folder)
    → lookup name (prune_backups true removable (suc keep) (insert name file folder)).1 ≡ some file
unfolding prune_backups list_backups
lookup-prune_backups removable keep name file folder u o =
    let bs = entries (insert name file folder) in
    let unique = insert-IsUnique name file folder u in
    lookup-remove_each removable name (drop (suc keep) (sort is_newer bs)) (insert name file folder)
      unique
      (newest_stays name file.mtime keep (sort is_newer bs)
        (All-sort is_newer (IsSettled name file.mtime) bs
          (entries-insert-IsSettled name file folder u o))
        (sort-IsSorted is_newer newest_first bs)
        (sort-IsDistinct bs (entries-IsDistinct (insert name file folder) unique)))
    ∙ lookup-insert_same name file folder
