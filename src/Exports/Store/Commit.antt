-- ===== src/Exports/Store/Commit.antt =====
-- What a write does when its flush is done or raises.
use indigo_matter.Prelude.{
  String, true, false, some, List, [], ◌∷◌, ℤ, ◌≡◌, refl, arith, Option-cases, inl, inr, ◌≢◌,
  str_eq, eq_iff, if◌then◌else◌,
}
use indigo_matter.Python.{Json, str, Fields, Result, ok, err, Result-cases}
use indigo_matter.Python.Dict
use indigo_matter.Python.Table.{Table, int_key}
use indigo_matter.Exports.Entry.{Entry}
use indigo_matter.Exports.Store
use indigo_matter.Exports.Store.{
  Store, Flush, flushed, failed, stuck, pref_key, commit, check_entry, check_entries, by_device_id,
  payload_of, find, contains, upsert, replace_all,
}

-- A write that raised: the list in memory is as before, and so is every pref unless putting it back
-- raised too.
abbrev pub IsUnchanged : Flush → Store → Store → Type 0
IsUnchanged flush before after =
    (after.entries ≡ before.entries)
    × (flush ≢ stuck → (k : String) → Dict.lookup k after.prefs ≡ Dict.lookup k before.prefs)

-- A write that did not raise: the prefs hold the list that is in memory, and no other pref changed.
abbrev pub IsPersisted : (Json → String) → Store → Store → Type 0
IsPersisted dumps before after =
    (Dict.lookup pref_key after.prefs ≡ some (str (dumps (payload_of after.entries))))
    × ((k : String)
        → str_eq pref_key k ≡ false
        → Dict.lookup k after.prefs ≡ Dict.lookup k before.prefs)

-- What a write leaves: `r` is its result.
abbrev pub IsSettled {ℓ} :
    {A : Type ℓ} → (Json → String) → Flush → Store → Result A → Store → Type 0
IsSettled dumps flush before (ok a) after = IsPersisted dumps before after
IsSettled dumps flush before (err e) after = IsUnchanged flush before after

module _ (dumps : Json → String) where
  restored-lookup :
      (k : String) (prefs : Fields) (v : Json)
      → Dict.lookup k (
          if Dict.has pref_key prefs
          then Dict.insert pref_key (Dict.get pref_key prefs) (Dict.insert pref_key v prefs)
          else Dict.without (pref_key ∷ []) (Dict.insert pref_key v prefs))
        ≡ Dict.lookup k prefs
  restored-lookup k prefs v = elim (Option-cases (Dict.lookup pref_key prefs)) [
    | inl none_there ↦ rw none_there (
        simp (Dict.lookup-without, Dict.lookup-insert)
          (ground (arith, eq_iff k pref_key, eq_iff pref_key k)))
    | inr (old, there) ↦ rw there (simp Dict.lookup-insert (ground (arith, eq_iff pref_key k)))
  ]

  pub commit-IsSettled :
      (flush : Flush) (pending : Table ℤ Entry) (store : Store)
      → IsSettled dumps flush store
          (commit dumps flush pending store).0
          (commit dumps flush pending store).1
  unfolding commit
  commit-IsSettled flushed pending store =
      (simp Dict.lookup-insert, λ k other. rw (Dict.lookup-insert, other))
  commit-IsSettled failed pending store = (refl, λ _ k. restored-lookup k store.prefs _)
  commit-IsSettled stuck pending store = (refl, λ h. absurd (h refl))

  -- A write whose flush is done leaves the list in the prefs.
  pub commit_flushed :
      (pending : Table ℤ Entry) (store : Store)
      → Dict.lookup pref_key (commit dumps flushed pending store).1.prefs
        ≡ some (str (dumps (payload_of pending)))
  unfolding commit
  commit_flushed pending store = simp Dict.lookup-insert

  returning-IsSettled {ℓ} :
      {A : Type ℓ} (a : A) (flush : Flush) (store : Store) (p : Result (Unit {0}) × Store)
      → IsSettled dumps flush store p.0 p.1
      → IsSettled dumps flush store (Store.returning dumps a p).0 (Store.returning dumps a p).1
  returning-IsSettled a flush store (ok u, after) h = h
  returning-IsSettled a flush store (err e, after) h = h

  module _ (flush : Flush) (store : Store) where
    pub upsert-IsSettled :
        (e : Entry)
        → IsSettled dumps flush store (upsert dumps flush e store).0 (upsert dumps flush e store).1
    unfolding upsert
    upsert-IsSettled e = elim (Result-cases (check_entry e)) [
      | inl (_, fine) ↦
          rw (fine, upsert)
            (returning-IsSettled e flush store (commit dumps flush _ store)
              (commit-IsSettled flush _ store))
      | inr (_, bad) ↦ rw (bad, upsert) (refl, λ _ k. refl)
    ]

    -- A device that is not exported is not removed, and nothing is written.
    pub remove-IsSettled :
        (device_id : ℤ)
        → (contains store device_id ≡ true
            → IsSettled dumps flush store
                (Store.remove dumps flush device_id store).0
                (Store.remove dumps flush device_id store).1)
          × (contains store device_id ≡ false
              → Store.remove dumps flush device_id store ≡ (ok false, store))
    unfolding Store.remove contains
    remove-IsSettled device_id = (
      λ there.
          rw (there, Store.remove)
            (returning-IsSettled true flush store (commit dumps flush _ store)
              (commit-IsSettled flush _ store)),
      λ absent. rw (absent, Store.remove),
    )

    pub replace_all-IsSettled :
        (es : List Entry)
        → IsSettled dumps flush store
            (replace_all dumps flush es store).0
            (replace_all dumps flush es store).1
    unfolding replace_all
    replace_all-IsSettled es = elim (Result-cases (check_entries es)) [
      | inl (_, fine) ↦ rw (fine, replace_all) (commit-IsSettled flush _ store)
      | inr (_, bad) ↦ rw (bad, replace_all) (refl, λ _ k. refl)
    ]

-- Adding or replacing an entry and replacing the whole list either succeed, and then the prefs hold
-- what is in memory and no other pref changed, or raise, and then the list in memory is as before
-- and so is every pref, unless putting the pref back raised too. Removing does the same for a
-- device that is exported, and for another it returns false and changes nothing.
pub writes-IsSettled :
    (dumps : Json → String) (flush : Flush) (store : Store)
    → ((e : Entry)
        → IsSettled dumps flush store (upsert dumps flush e store).0 (upsert dumps flush e store).1)
      × ((device_id : ℤ)
          → (contains store device_id ≡ true
              → IsSettled dumps flush store
                  (Store.remove dumps flush device_id store).0
                  (Store.remove dumps flush device_id store).1)
            × (contains store device_id ≡ false
                → Store.remove dumps flush device_id store ≡ (ok false, store)))
      × ((es : List Entry)
          → IsSettled dumps flush store
              (replace_all dumps flush es store).0
              (replace_all dumps flush es store).1)
writes-IsSettled dumps flush store = (
  upsert-IsSettled dumps flush store,
  remove-IsSettled dumps flush store,
  replace_all-IsSettled dumps flush store,
)
