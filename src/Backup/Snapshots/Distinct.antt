-- ===== src/Backup/Snapshots/Distinct.antt =====
-- The order of the backups, and that no name stands twice among them.
use indigo_matter.Prelude.{
  ℕ, zero, suc, String, Bool, true, false, ◌||◌, none, List, [], ◌∷◌, any, str_eq, ◌≡◌, ◌∙◌, refl,
  arith, All, Bool-cases, inl, inr, eq_iff,
}
use indigo_matter.Python.{codes}
use indigo_matter.Python.Table.{lookup, text_key, IsUnique}
use indigo_matter.Python.Sorting.{sort, take, drop, insert_sorted, IsOrder}
use indigo_matter.Backup.Snapshots.{Folder, Backup, is_backup, entries, is_less, is_newer}

is_less_asym : (a b : List ℕ) → is_less a b ≡ true → is_less b a ≡ false
unfolding is_less
is_less_asym a [] h = cc
is_less_asym [] (d ∷ b) h = refl
is_less_asym (c ∷ a) (d ∷ b) h = ground (arith, is_less_asym a b)

is_less_negtrans :
    (a b c : List ℕ) → is_less a b ≡ false → is_less b c ≡ false → is_less a c ≡ false
unfolding is_less
is_less_negtrans a b [] h k = refl
is_less_negtrans a [] (z ∷ c) h k = cc
is_less_negtrans [] (y ∷ b) (z ∷ c) h k = cc
is_less_negtrans (x ∷ a) (y ∷ b) (z ∷ c) h k = ground (arith, is_less_negtrans a b c)

pub newest_first : IsOrder is_newer
unfolding is_newer
newest_first = record {
  asym = λ a b h. ground (arith, is_less_asym (codes b.filename) (codes a.filename));
  negtrans = λ a b c h k.
      ground (arith, is_less_negtrans (codes c.filename) (codes b.filename) (codes a.filename));
}

-- Whether a backup has the name.
unfoldable pub listed : String → List Backup → Bool
listed name backups = any (λ b. str_eq b.filename name) backups

abbrev pub IsDistinct : List Backup → Type 0
IsDistinct [] = Unit
IsDistinct (b ∷ bs) = (listed b.filename bs ≡ false) × IsDistinct bs

pub or_false : (a b : Bool) → (a || b) ≡ false → (a ≡ false) × (b ≡ false)
or_false a b h = ground arith

pub listed-insert_sorted :
    (name : String) (b : Backup) (bs : List Backup)
    → listed name (insert_sorted is_newer b bs) ≡ (str_eq b.filename name || listed name bs)
unfolding listed insert_sorted
listed-insert_sorted name b [] = refl
listed-insert_sorted name b (c ∷ bs) = ground (arith, listed-insert_sorted name b bs)

insert_sorted-IsDistinct :
    (b : Backup) (bs : List Backup)
    → listed b.filename bs ≡ false
    → IsDistinct bs
    → IsDistinct (insert_sorted is_newer b bs)
unfolding listed insert_sorted
insert_sorted-IsDistinct b [] h d = (refl, tt)
insert_sorted-IsDistinct b (c ∷ bs) h d = elim (Bool-cases (is_newer c b)) [
  | inl is ↦ rw is (
    listed-insert_sorted c.filename b bs
        ∙ ground (arith, d.0, eq_iff b.filename c.filename, eq_iff c.filename b.filename),
    insert_sorted-IsDistinct b bs (ground arith) d.1,
  )
  | inr is ↦ rw is (h, d)
]

listed-sort : (name : String) (bs : List Backup) → listed name (sort is_newer bs) ≡ listed name bs
unfolding listed sort
listed-sort name [] = refl
listed-sort name (b ∷ bs) =
    listed-insert_sorted name b (sort is_newer bs) ∙ rw (listed-sort name bs) refl

pub sort-IsDistinct : (bs : List Backup) → IsDistinct bs → IsDistinct (sort is_newer bs)
unfolding sort
sort-IsDistinct [] d = tt
sort-IsDistinct (b ∷ bs) d =
    insert_sorted-IsDistinct b (sort is_newer bs) (listed-sort b.filename bs ∙ d.0)
      (sort-IsDistinct bs d.1)

pub listed-entries :
    (name : String) (folder : Folder)
    → lookup name folder ≡ none
    → listed name (entries folder) ≡ false
unfolding listed entries lookup
listed-entries name [] h = refl
listed-entries name ((n, file) ∷ folder) h = ground (arith, listed-entries name folder)

pub entries-IsDistinct : (folder : Folder) → IsUnique folder → IsDistinct (entries folder)
unfolding entries
entries-IsDistinct [] u = tt
entries-IsDistinct ((n, file) ∷ folder) u = elim (Bool-cases (is_backup n file)) [
  | inl is ↦ rw is (listed-entries n folder u.0, entries-IsDistinct folder u.1)
  | inr is ↦ rw is (entries-IsDistinct folder u.1)
]

pub listed-drop :
    (n : ℕ) (name : String) (bs : List Backup)
    → listed name bs ≡ false
    → listed name (drop n bs) ≡ false
unfolding listed
listed-drop zero name bs h = h
listed-drop (suc n) name [] h = refl
listed-drop (suc n) name (b ∷ bs) h = listed-drop n name bs (ground arith)

-- No name of the first backups stands among the others.
pub take_apart :
    (n : ℕ) (bs : List Backup)
    → IsDistinct bs
    → All (λ b. listed b.filename (drop n bs) ≡ false) (take n bs)
take_apart zero bs d = tt
take_apart (suc n) [] d = tt
take_apart (suc n) (b ∷ bs) d = (listed-drop n b.filename bs d.0, take_apart n bs d.1)
