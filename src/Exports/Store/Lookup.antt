-- ===== src/Exports/Store/Lookup.antt =====
-- What the writes do to the lookup of every device: the store is a map under `upsert` and
-- `remove`.
use indigo_matter.Prelude.{
  String, true, false, Option, none, some, ℤ, ◌≡◌, inl, inr, refl, ap, arith, ◌∙◌, eq_ℤ, is_some,
  Bool-cases, if◌then◌else◌,
}
use indigo_matter.Python.{Json, ok, err, Result, Result-cases}
use indigo_matter.Python.Table
use indigo_matter.Python.Table.{Table, int_key, eq_ℤ_iff, lookup-insert, lookup-remove}
use indigo_matter.Exports.Entry.{Entry}
use indigo_matter.Exports.Store
use indigo_matter.Exports.Store.{
  Store, Flush, flushed, failed, stuck, find, upsert, commit, check_entry, check_entries,
  by_device_id, replace_all,
}
use indigo_matter.Exports.Store.Invariant.{IsValid, IsLawful-check_entry}
use indigo_matter.Exports.Entry.RoundTrip.{IsLawful}

-- What a write leaves of the lookup: `after` if it returned, and everything as before if it raised.
abbrev pub IsWritten {ℓ} : {A : Type ℓ} → Result A → Store → Store → (ℤ → Option Entry) → Type 0
IsWritten (ok _) before store after = (k : ℤ) → find store k ≡ after k
IsWritten (err _) before store after = (k : ℤ) → find store k ≡ find before k

absent_lem :
    (j : ℤ) (t : Table ℤ Entry)
    → is_some (Table.lookup j t) ≡ false
    → (k : ℤ) → Table.lookup k t ≡ (if eq_ℤ j k then none else Table.lookup k t)
absent_lem j t h k = ground (arith, eq_ℤ_iff j k, ap (λ (i : ℤ). Table.lookup i t))

module _ (dumps : Json → String) where
  commit-IsWritten :
      (flush : Flush) (pending : Table ℤ Entry) (store : Store)
      → IsWritten
          (commit dumps flush pending store).0
          store
          (commit dumps flush pending store).1
          (λ k. Table.lookup k pending)
  unfolding commit find
  commit-IsWritten flushed pending store = λ k. refl
  commit-IsWritten failed pending store = λ k. refl
  commit-IsWritten stuck pending store = λ k. refl

  returning-IsWritten {ℓ} :
      {A : Type ℓ} (a : A) (before : Store) (p : Result (Unit {0}) × Store) (f g : ℤ → Option Entry)
      → ((k : ℤ) → f k ≡ g k)
      → IsWritten p.0 before p.1 f
      → IsWritten (Store.returning dumps a p).0 before (Store.returning dumps a p).1 g
  returning-IsWritten a before (ok u, store) f g same h = λ k. h k ∙ same k
  returning-IsWritten a before (err e, store) f g same h = h

  module _ (flush : Flush) (store : Store) where
    pub upsert-IsWritten :
        (e : Entry)
        → IsWritten
            (upsert dumps flush e store).0
            store
            (upsert dumps flush e store).1
            (λ k. if eq_ℤ e.indigo_device_id k then some e else find store k)
    unfolding upsert find
    upsert-IsWritten e = elim (Result-cases (check_entry e)) [
      | inl (_, fine) ↦
          rw (fine, upsert)
            (returning-IsWritten e store (commit dumps flush _ store) _ _
              (λ k. lookup-insert e.indigo_device_id k e store.entries)
              (commit-IsWritten flush _ store))
      | inr (_, bad) ↦ rw (bad, upsert) (λ k. refl)
    ]

    -- A lawful entry is refused by no check.
    pub upsert_flushed : (e : Entry) → IsLawful e → (upsert dumps flushed e store).0 ≡ ok e
    unfolding upsert commit
    upsert_flushed e l = rw (IsLawful-check_entry e l, upsert)

    pub remove-IsWritten :
        IsValid store.entries
        → (device_id : ℤ)
        → IsWritten
            (Store.remove dumps flush device_id store).0
            store
            (Store.remove dumps flush device_id store).1
            (λ k. if eq_ℤ device_id k then none else find store k)
    unfolding Store.remove find
    remove-IsWritten v device_id =
        elim (Bool-cases (is_some (Table.lookup device_id store.entries))) [
          | inl there ↦
              rw (there, Store.remove)
                (returning-IsWritten true store (commit dumps flush _ store) _ _
                  (λ k. lookup-remove device_id k store.entries v.unique)
                  (commit-IsWritten flush _ store))
          | inr absent ↦
              rw (absent, Store.remove) (λ k. absent_lem device_id store.entries absent k)
        ]

-- Adding or replacing an entry, if it returns, changes the lookup of that entry's device to the
-- entry and of no other device; removing from a valid list, if it returns, empties the lookup of
-- that device and of no other. A write that raises changes no lookup.
pub writes-IsWritten :
    (dumps : Json → String) (flush : Flush) (store : Store)
    → IsValid store.entries
    → ((e : Entry)
        → IsWritten
            (upsert dumps flush e store).0
            store
            (upsert dumps flush e store).1
            (λ k. if eq_ℤ e.indigo_device_id k then some e else find store k))
      × ((device_id : ℤ)
          → IsWritten
              (Store.remove dumps flush device_id store).0
              store
              (Store.remove dumps flush device_id store).1
              (λ k. if eq_ℤ device_id k then none else find store k))
writes-IsWritten dumps flush store v =
    (upsert-IsWritten dumps flush store, remove-IsWritten dumps flush store v)
