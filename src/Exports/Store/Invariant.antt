-- ===== src/Exports/Store/Invariant.antt =====
-- The invariant of the store: every operation keeps every entry lawful and under its own id.
use indigo_matter.Prelude.{
  String, some, List, [], ◌∷◌, ℤ, ◌≡◌, refl, arith, is_some, Bool-cases, inl, inr,
}
use indigo_matter.Python.{Json, Result, ok, err, Result-cases, >>-eq-ok}
use indigo_matter.Python.Table.{
  Table, int_key, eq_ℤ_iff, lookup, insert, remove, IsUnique, lookup-insert, insert-IsUnique,
  lookup-remove, remove-IsUnique,
}
use indigo_matter.Exports.Entry.{Entry, check_published_as}
use indigo_matter.Exports.Entry.RoundTrip.{IsLawful}
use indigo_matter.Exports.Store
use indigo_matter.Exports.Store.{
  Store, Flush, flushed, failed, stuck, pref_key, commit, check_entry, check_entries, by_device_id,
  payload_of, find, contains, upsert, replace_all,
}

-- Every entry is lawful and stands under its own device id.
pub record IsValid (entries : Table ℤ Entry) : Type 0 where
  pub unique : IsUnique entries
  pub keyed : (k : ℤ) (e : Entry) → lookup k entries ≡ some e → e.indigo_device_id ≡ k
  pub lawful : (k : ℤ) (e : Entry) → lookup k entries ≡ some e → IsLawful e

pub check_entry-IsLawful : (e : Entry) → check_entry e ≡ ok tt → IsLawful e
unfolding check_entry
check_entry-IsLawful e h =
    let (p, o) = >>-eq-ok (check_published_as e.published_as) _ h in
    record { published = p; options = o }

pub IsLawful-check_entry : (e : Entry) → IsLawful e → check_entry e ≡ ok tt
unfolding check_entry
IsLawful-check_entry e l = rw (l.published, l.options)

pub insert-IsValid :
    (e : Entry) (t : Table ℤ Entry)
    → IsLawful e
    → IsValid t
    → IsValid (insert e.indigo_device_id e t)
insert-IsValid e t l v = record {
  unique = insert-IsUnique e.indigo_device_id e t v.unique;
  keyed = λ k f h.
      ground
        (arith, lookup-insert e.indigo_device_id k e t, eq_ℤ_iff e.indigo_device_id k, v.keyed k f);
  lawful = λ k f h. ground (arith, lookup-insert e.indigo_device_id k e t, v.lawful k f);
}

pub remove-IsValid : (k : ℤ) (t : Table ℤ Entry) → IsValid t → IsValid (remove k t)
remove-IsValid k t v = record {
  unique = remove-IsUnique k t v.unique;
  keyed = λ j f h. ground (arith, lookup-remove k j t v.unique, v.keyed j f);
  lawful = λ j f h. ground (arith, lookup-remove k j t v.unique, v.lawful j f);
}

by_device_id-IsValid :
    (es : List Entry) (t : Table ℤ Entry)
    → check_entries es ≡ ok tt
    → IsValid t
    → IsValid (by_device_id es t)
unfolding check_entries by_device_id
by_device_id-IsValid [] t h v = v
by_device_id-IsValid (e ∷ es) t h v =
    let (one, rest) = >>-eq-ok (check_entry e) _ h in
    by_device_id-IsValid es (insert e.indigo_device_id e t) rest
      (insert-IsValid e t (check_entry-IsLawful e one) v)

pub []-IsValid : IsValid []
[]-IsValid = record {
  unique = tt;
  keyed = λ k e h. unfold lookup in cc;
  lawful = λ k e h. absurd (unfold lookup in cc);
}

entries-returning {ℓ} :
    (dumps : Json → String) {A : Type ℓ} (a : A) (p : Result (Unit {0}) × Store)
    → (Store.returning dumps a p).1 ≡ p.1
entries-returning dumps a (ok u, after) = refl
entries-returning dumps a (err e, after) = refl

module _ (dumps : Json → String) (flush : Flush) (store : Store) where
  entries-commit :
      (pending : Table ℤ Entry)
      → IsValid store.entries
      → IsValid pending
      → IsValid (commit dumps flush pending store).1.entries
  unfolding commit
  entries-commit pending v w =
      elim flush as (λ f. IsValid (commit dumps f pending store).1.entries) [
        | flushed ↦ w
        | failed ↦ v
        | stuck ↦ v
      ]

-- The three writes keep the invariant, whether the flush is done or raises.
module _ (dumps : Json → String) (flush : Flush) (store : Store) (v : IsValid store.entries) where
  upsert-IsValid : (e : Entry) → IsValid (upsert dumps flush e store).1.entries
  unfolding upsert
  upsert-IsValid e = elim (Result-cases (check_entry e)) [
    | inl (_, fine) ↦
        rw (fine, upsert, entries-returning)
          (entries-commit dumps flush store _ v
            (insert-IsValid e store.entries (check_entry-IsLawful e fine) v))
    | inr (_, bad) ↦ rw (bad, upsert) v
  ]

  remove_method-IsValid :
      (device_id : ℤ) → IsValid (Store.remove dumps flush device_id store).1.entries
  unfolding Store.remove
  remove_method-IsValid device_id = elim (Bool-cases (is_some (lookup device_id store.entries))) [
    | inl there ↦
        rw (there, Store.remove, entries-returning)
          (entries-commit dumps flush store _ v (remove-IsValid device_id store.entries v))
    | inr absent ↦ rw (absent, Store.remove) v
  ]

  replace_all-IsValid : (es : List Entry) → IsValid (replace_all dumps flush es store).1.entries
  unfolding replace_all
  replace_all-IsValid es = elim (Result-cases (check_entries es)) [
    | inl (_, fine) ↦
        rw (fine, replace_all)
          (entries-commit dumps flush store _ v (by_device_id-IsValid es [] fine []-IsValid))
    | inr (_, bad) ↦ rw (bad, replace_all) v
  ]

-- From a list whose entries are lawful and stand under their own device ids, adding or replacing
-- any entry, removing any device and replacing the whole list leave such a list, whether the flush
-- of the prefs is done or raises.
pub writes-IsValid :
    (dumps : Json → String) (flush : Flush) (store : Store)
    → IsValid store.entries
    → ((e : Entry) → IsValid (upsert dumps flush e store).1.entries)
      × ((device_id : ℤ) → IsValid (Store.remove dumps flush device_id store).1.entries)
      × ((es : List Entry) → IsValid (replace_all dumps flush es store).1.entries)
writes-IsValid dumps flush store v = (
  upsert-IsValid dumps flush store v,
  remove_method-IsValid dumps flush store v,
  replace_all-IsValid dumps flush store v,
)
