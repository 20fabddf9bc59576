-- ===== src/Backup/Snapshots/Pruned.antt =====
-- What pruning leaves of the backups.
use mathlib.Core.Path.{ap}
use indigo_matter.Prelude.{
  if◌then◌else◌, ℕ, zero, suc, String, Bool, true, false, not, ◌&&◌, List, [], ◌∷◌, ◌++◌, str_eq,
  ◌≡◌, ◌∙◌, refl, sym, arith, All, All-map, Bool-cases, inl, inr, eq_iff,
}
use indigo_matter.Python.Table.{lookup, remove, text_key, IsUnique, remove-IsUnique}
use indigo_matter.Python.Sorting.{sort, take, drop, filter, filter-sort}
use indigo_matter.Backup.Snapshots.Distinct.{
  newest_first, listed, IsDistinct, sort-IsDistinct, listed-entries, entries-IsDistinct, or_false,
  take_apart,
}
use indigo_matter.Backup.Snapshots.{
  Folder, Backup, is_backup, entries, is_newer, list_backups, remove_each, prune_backups,
}

-- What the removal of the stale backups does to the listed ones.
is_left : (String → Bool) → List Backup → Backup → Bool
is_left removable stale b = not (listed b.filename stale && removable b.filename)

filter_all :
    (p : Backup → Bool) (bs others : List Backup)
    → All (λ b. p b ≡ true) bs
    → filter p (bs ++ others) ≡ bs ++ filter p others
filter_all p [] others h = refl
filter_all p (b ∷ bs) others h = rw (h.0, filter_all p bs others h.1) refl

filter_same :
    (p q : Backup → Bool) (bs : List Backup) → All (λ b. p b ≡ q b) bs → filter p bs ≡ filter q bs
filter_same p q [] h = refl
filter_same p q (b ∷ bs) h = rw (h.0, filter_same p q bs h.1) refl

take-append-drop : (n : ℕ) (bs : List Backup) → take n bs ++ drop n bs ≡ bs
take-append-drop zero bs = refl
take-append-drop (suc n) [] = refl
take-append-drop (suc n) (b ∷ bs) = rw (take-append-drop n bs) refl

listed_itself : (bs : List Backup) → All (λ b. listed b.filename bs ≡ true) bs
unfolding listed
listed_itself [] = tt
listed_itself (b ∷ bs) = (
  ground (arith, eq_iff b.filename b.filename),
  All-map (λ c. listed c.filename bs ≡ true) (λ c. listed c.filename (b ∷ bs) ≡ true) bs
      (λ c h. ground arith) (listed_itself bs),
)

-- The newest `n` backups stay, and of the others those that cannot be removed.
filter_split :
    (removable : String → Bool) (n : ℕ) (bs : List Backup)
    → IsDistinct bs
    → filter (is_left removable (drop n bs)) bs
      ≡ take n bs ++ filter (λ b. not (removable b.filename)) (drop n bs)
unfolding is_left
filter_split removable n bs d =
    let p = is_left removable (drop n bs) in
    ap (filter p) (sym (take-append-drop n bs))
    ∙ filter_all p (take n bs) (drop n bs) (
        All-map (λ b. listed b.filename (drop n bs) ≡ false) (λ b. p b ≡ true) (take n bs)
          (λ b h. rw h refl) (take_apart n bs d))
    ∙ ap (λ rest. take n bs ++ rest)
        (filter_same p (λ b. not (removable b.filename)) (drop n bs)
          (All-map (λ b. listed b.filename (drop n bs) ≡ true)
            (λ b. p b ≡ not (removable b.filename)) (drop n bs) (λ b h. rw h refl)
            (listed_itself (drop n bs))))

filter_absent :
    (name : String) (bs : List Backup)
    → listed name bs ≡ false
    → filter (λ b. not (str_eq b.filename name)) bs ≡ bs
unfolding listed
filter_absent name [] h = refl
filter_absent name (b ∷ bs) h =
    let (apart, rest) = or_false (str_eq b.filename name) (listed name bs) h in
    rw (apart, filter_absent name bs rest) refl

filter-filter :
    (p q : Backup → Bool) (bs : List Backup) → filter p (filter q bs) ≡ filter (λ b. q b && p b) bs
filter-filter p q [] = refl
filter-filter p q (b ∷ bs) = elim (Bool-cases (q b)) [
  | inl is ↦ rw (is, filter-filter p q bs) refl
  | inr is ↦ rw (is, filter-filter p q bs) refl
]

filter-true : (bs : List Backup) → filter (λ b. true) bs ≡ bs
filter-true [] = refl
filter-true (b ∷ bs) = rw (filter-true bs) refl

filter_pointwise :
    (p q : Backup → Bool) (bs : List Backup)
    → ((b : Backup) → p b ≡ q b)
    → filter p bs ≡ filter q bs
filter_pointwise p q bs h = ap (λ test. filter test bs) (λ i b. h b i)

entries-remove :
    (name : String) (folder : Folder)
    → IsUnique folder
    → entries (remove name folder) ≡ filter (λ b. not (str_eq b.filename name)) (entries folder)
unfolding entries remove
entries-remove name [] u = refl
entries-remove name ((n, file) ∷ folder) u = elim (Bool-cases (str_eq n name)) [
  | inl is ↦ elim (Bool-cases (is_backup n file)) [
    | inl backup ↦
        rw (is, backup, is)
          (sym (
            filter_absent name (entries folder) (
              listed-entries name folder
                (ground (arith, u.0, eq_iff n name, ap (λ k. lookup k folder))))))
    | inr other ↦
        rw (is, other)
          (sym (
            filter_absent name (entries folder) (
              listed-entries name folder
                (ground (arith, u.0, eq_iff n name, ap (λ k. lookup k folder))))))
  ]
  | inr is ↦ elim (Bool-cases (is_backup n file)) [
    | inl backup ↦ rw (is, backup, is, entries-remove name folder u.1) refl
    | inr other ↦ rw (is, other, entries-remove name folder u.1) refl
  ]
]

same_name :
    (removable : String → Bool) (b c : Backup)
    → b.filename ≡ c.filename
    → removable b.filename ≡ removable c.filename
same_name removable b c h = ap removable h

entries-remove_each :
    (removable : String → Bool) (stale : List Backup) (folder : Folder)
    → IsUnique folder
    → entries (remove_each removable stale folder)
      ≡ filter (is_left removable stale) (entries folder)
unfolding remove_each is_left listed
entries-remove_each removable [] folder u = sym (filter-true (entries folder))
entries-remove_each removable (b ∷ stale) folder u = elim (Bool-cases (removable b.filename)) [
  | inl goes ↦ rw goes (
      entries-remove_each removable stale (remove b.filename folder)
        (remove-IsUnique b.filename folder u)
      ∙ rw (entries-remove b.filename folder u) (
          filter-filter (is_left removable stale) (λ c. not (str_eq c.filename b.filename))
            (entries folder)
          ∙ filter_pointwise _ (is_left removable (b ∷ stale)) (entries folder) (λ c. ground (
            arith,
            goes,
            eq_iff b.filename c.filename,
            eq_iff c.filename b.filename,
            same_name removable b c,
          ))))
  | inr stays ↦ rw stays (
      entries-remove_each removable stale folder u
      ∙ filter_pointwise (is_left removable stale) (is_left removable (b ∷ stale)) (entries folder)
          (λ c. ground (arith, stays, eq_iff b.filename c.filename, same_name removable b c)))
]

-- Pruning leaves the newest backups, as many as it is to keep, and those of the older ones whose
-- removal does not go through, in their order, if no name stands twice in the directory. Where its
-- listing raises it leaves all.
pub list_backups-prune_backups :
    (lists : Bool) (removable : String → Bool) (keep : ℕ) (folder : Folder)
    → IsUnique folder
    → list_backups (prune_backups lists removable keep folder).1 ≡ (
        if lists
        then take keep (list_backups folder)
          ++ filter (λ b. not (removable b.filename)) (drop keep (list_backups folder))
        else list_backups folder)
unfolding list_backups prune_backups
list_backups-prune_backups false removable keep folder u = refl
list_backups-prune_backups true removable keep folder u =
    let stale = drop keep (list_backups folder) in
    rw (entries-remove_each removable stale folder u) (
      sym (filter-sort is_newer newest_first (is_left removable stale) (entries folder))
      ∙ filter_split removable keep (sort is_newer (entries folder))
          (sort-IsDistinct (entries folder) (entries-IsDistinct folder u)))
