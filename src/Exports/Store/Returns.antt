-- ===== src/Exports/Store/Returns.antt =====
-- export_store.py, `_load`: when a start returns.
use indigo_matter.Prelude.{
  ℕ, ◌+◌, String, true, Option, none, some, [], ℤ, ◌≡◌, refl, ◌∙◌, arith, Bool-cases, inl, inr,
}
use indigo_matter.Python.{
  Json, Items, nil, cons, Fields, Error, value_error, ok, err, Result-cases, truthy,
}
use indigo_matter.Python.Dict.{get}
use indigo_matter.Python.Table.{Table}
use indigo_matter.Exports.Entry.{Entry, from_dict}
use indigo_matter.Exports.Entry.Returns.{is_mild, is_readable, from_dict-mild}
use indigo_matter.Exports.Store.{
  Store, Verdict, keep_entry, load_items, parse_blob, listed_of, loaded, load_listed, load_raw,
  load, pref_key, corrupt,
}
use indigo_matter.Exports.Store.Load.{load_items_ok, load_items_bad}

-- Every listed row is readable.
abbrev pub AllReadable : Items → Type 0
AllReadable nil = Unit
AllReadable (cons item rest) = (is_readable item ≡ true) × AllReadable rest

mild_error : (e : Error) → is_mild {A = Entry} (err e) ≡ true → e ≡ value_error
mild_error e h = ground arith

module _ (loads : String → Option Json) (repr : Json → String) (validator : Entry → Verdict) where
  load_items_returns :
      (items : Items) (acc : Table ℤ Entry × ℕ)
      → AllReadable items
      → (out : Table ℤ Entry × ℕ) × (load_items loads repr validator items acc ≡ ok out)
  unfolding load_items
  load_items_returns nil acc all = (acc, refl)
  load_items_returns (cons item rest) acc all = elim (Result-cases (from_dict item)) [
    | inl (e, fine) ↦
        let (out, h) = load_items_returns rest (keep_entry loads repr validator e acc) all.1 in
        (out, load_items_ok loads repr validator item rest acc fine ∙ h)
    | inr (e, bad) ↦
        let (out, h) = load_items_returns rest (acc.0, acc.1 + 1) all.1 in
        let bad_row = mild_error e (rw bad at (from_dict-mild item all.0)) in
        (out, load_items_bad loads repr validator item rest acc (rw bad_row at bad) ∙ h)
  ]

  load_listed_returns :
      (raw : Json) (prefs : Fields) (listed : Option Items)
      → ((items : Items) → listed ≡ some items → AllReadable items)
      → (s : Store) × (load_listed loads repr validator raw prefs listed ≡ ok s)
  unfolding load_listed
  load_listed_returns raw prefs none all = (corrupt loads repr validator raw prefs, refl)
  load_listed_returns raw prefs (some items) all =
      let (out, h) = load_items_returns items ([], 0) (all items refl) in
      (loaded loads repr validator raw prefs out, rw h)

  -- A start returns a store, whatever the prefs hold, if no row of a list that could be read has an
  -- infinite number as its device id or a list or an object as its role.
  pub load_returns :
      (prefs : Fields)
      → ((items : Items)
          → listed_of loads repr validator (parse_blob loads repr validator (get pref_key prefs))
            ≡ some items
          → AllReadable items)
      → (s : Store) × (load loads repr validator prefs ≡ ok s)
  unfolding load load_raw
  load_returns prefs all = elim (Bool-cases (truthy (get pref_key prefs))) [
    | inr empty ↦ (record { entries = []; load_error = none; prefs = prefs }, rw (empty, load_raw))
    | inl there ↦
        let (s, h) = load_listed_returns (get pref_key prefs) prefs _ all in
        (s, rw (there, load_raw) h)
  ]
