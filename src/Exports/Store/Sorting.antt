-- ===== src/Exports/Store/Sorting.antt =====
-- Sorting the entries by device id keeps what each id is mapped to.
use indigo_matter.Prelude.{none, some, [], ◌∷◌, ℤ, ◌≡◌, ◌∙◌, refl, arith, eq_ℤ, if◌then◌else◌}
use indigo_matter.Python.Table.{Table, int_key, eq_ℤ_iff, lookup, IsUnique}
use indigo_matter.Exports.Entry.{Entry}
use indigo_matter.Exports.Store.{insert_sorted, sort_entries}

pub lookup-insert_sorted :
    (j k : ℤ) (e : Entry) (t : Table ℤ Entry)
    → lookup k t ≡ none
    → lookup j (insert_sorted k e t) ≡ (if eq_ℤ k j then some e else lookup j t)
unfolding lookup insert_sorted
lookup-insert_sorted j k e [] h = refl
lookup-insert_sorted j k e ((i, f) ∷ t) h =
    ground (arith, eq_ℤ_iff i k, eq_ℤ_iff i j, eq_ℤ_iff k j, lookup-insert_sorted j k e t)

pub insert_sorted-IsUnique :
    (k : ℤ) (e : Entry) (t : Table ℤ Entry)
    → lookup k t ≡ none
    → IsUnique t
    → IsUnique (insert_sorted k e t)
unfolding lookup insert_sorted
insert_sorted-IsUnique k e [] h u = (refl, tt)
insert_sorted-IsUnique k e ((i, f) ∷ t) h u =
    ground (
      arith,
      eq_ℤ_iff i k,
      eq_ℤ_iff k i,
      lookup-insert_sorted i k e t,
      insert_sorted-IsUnique k e t,
    )

pub lookup-sort_entries :
    (j : ℤ) (t : Table ℤ Entry) → IsUnique t → lookup j (sort_entries t) ≡ lookup j t
unfolding lookup sort_entries
lookup-sort_entries j [] u = refl
lookup-sort_entries j ((k, e) ∷ t) u =
    lookup-insert_sorted j k e (sort_entries t) (lookup-sort_entries k t u.1 ∙ u.0)
    ∙ ground (arith, lookup-sort_entries j t u.1)

pub sort_entries-IsUnique : (t : Table ℤ Entry) → IsUnique t → IsUnique (sort_entries t)
unfolding sort_entries
sort_entries-IsUnique [] u = tt
sort_entries-IsUnique ((k, e) ∷ t) u =
    insert_sorted-IsUnique k e (sort_entries t) (lookup-sort_entries k t u.1 ∙ u.0)
      (sort_entries-IsUnique t u.1)
