-- ===== src/Exports/Store/Rescue.antt =====
-- What is kept of a list that could not be read, and the items that end a load.
use indigo_matter.Prelude.{
  ℕ, false, String, Option, none, some, [], ℤ, ◌≡◌, str_eq, ◌⊎◌, if◌then◌else◌,
}
use indigo_matter.Python.{
  Json, str, list, dict, Items, nil, cons, Fields, type_error, ok, err, truthy,
}
use indigo_matter.Python.Dict
use indigo_matter.Python.Dict.{get}
use indigo_matter.Python.Table.{Table, int_key}
use indigo_matter.Python.Table
use indigo_matter.Exports.Entry.{Entry, from_dict, read_device_id, key_role}
use indigo_matter.Exports.Entry.RoundTrip.{from_dict_unhashable_role}
use indigo_matter.Exports.Store.{
  Store, LoadError, Verdict, reject, parse_blob, listed_of, load_items, pref_key, pref_key_corrupt,
  is_str,
}

module _ (loads : String → Option Json) (repr : Json → String) (validator : Entry → Verdict) where
  -- The text of the blob that is moved aside.
  abbrev pub as_text : Json → Json
  as_text raw = if is_str raw then raw else str (repr raw)

  -- The reader reads every item, and the validator refuses none; each is kept under its id, where a
  -- later one replaces an earlier one.
  unfoldable pub IsReadAll : Items → Table ℤ Entry → Table ℤ Entry → Type 0
  IsReadAll nil kept entries = kept ≡ entries
  IsReadAll (cons item rest) kept entries =
      (e : Entry) × (from_dict item ≡ ok e)
      × (reject loads repr validator e ≡ false)
      × IsReadAll rest (Table.insert e.indigo_device_id e kept) entries

  -- What a start that ended with this load error has read, and what it leaves in the prefs.
  unfoldable pub IsRescued : Fields → Table ℤ Entry → Option LoadError → Fields → Type 0
  IsRescued prefs entries none after =
      (after ≡ prefs)
      × (((truthy (get pref_key prefs) ≡ false) × (entries ≡ []))
          ⊎ ((items : Items) × (listed_of loads repr validator
                  (parse_blob loads repr validator (get pref_key prefs))
                ≡ some items)
              × IsReadAll items [] entries))
  IsRescued prefs entries (some e) after =
      (k : String)
      → Dict.lookup k after ≡ (
          if truthy (get pref_key_corrupt prefs)
          then Dict.lookup k prefs
          else if str_eq pref_key_corrupt k
          then some (as_text (get pref_key prefs))
          else Dict.lookup k prefs)

  -- An item with a usable id whose role is a list or an object ends the load with a TypeError,
  -- whatever was read before it and whatever follows: the loop drops an item only for a ValueError.
  pub load_items_unhashable_role :
      (item : Fields) (rest : Items) (acc : Table ℤ Entry × ℕ) (z : ℤ)
      → read_device_id item ≡ ok z
      → ((xs : Items) × (get key_role item ≡ list xs))
        ⊎ ((d : Fields) × (get key_role item ≡ dict d))
      → load_items loads repr validator (cons (dict item) rest) acc ≡ err type_error
  unfolding load_items
  load_items_unhashable_role item rest acc z id h =
      rw (from_dict_unhashable_role item z id h, load_items)
