-- ===== src/Exports/Store/Load.antt =====
-- What the reader of the prefs guarantees, whatever the prefs hold.
use mathlib.Core.Path.{subst}
use indigo_matter.Prelude.{
  ℕ, ◌+◌, String, Option, none, some, [], ℤ, ◌≡◌, sym, ◌∙◌, arith, Bool-cases, inl, inr,
}
use indigo_matter.Python.{
  ok_injective, Json, Items, nil, cons, Fields, Error, value_error, ok, err, truthy, Result-cases,
  >>=-eq-ok,
}
use indigo_matter.Python.Dict.{get}
use indigo_matter.Python.Table.{Table, int_key, lookup, lookup-insert}
use indigo_matter.Exports.Entry.{Entry, from_dict}
use indigo_matter.Exports.Entry.RoundTrip.{IsLawful, IsNamed, from_dict-IsLawful}
use indigo_matter.Exports.Store.{
  Store, Verdict, reject, keep_entry, load_items, corrupt, loaded, load_listed, load_raw, load,
  pref_key,
}
use indigo_matter.Exports.Store.Invariant.{IsValid, insert-IsValid, []-IsValid}

-- A list as the reader leaves it: valid, with known roles and no empty name.
pub record IsRead (entries : Table ℤ Entry) : Type 0 where
  pub valid : IsValid entries
  pub named : (k : ℤ) (e : Entry) → lookup k entries ≡ some e → IsNamed e

[]-IsRead : IsRead []
[]-IsRead = record { valid = []-IsValid; named = λ k e h. absurd (unfold lookup in cc) }

module _ (loads : String → Option Json) (repr : Json → String) (validator : Entry → Verdict) where
  keep_entry-IsRead :
      (e : Entry) (acc : Table ℤ Entry × ℕ)
      → IsLawful e × IsNamed e
      → IsRead acc.0
      → IsRead (keep_entry loads repr validator e acc).0
  unfolding keep_entry
  keep_entry-IsRead e (t, n) (l, m) r = elim (Bool-cases (reject loads repr validator e)) [
    | inl refused ↦ rw refused r
    | inr kept ↦ rw kept (record {
      valid = insert-IsValid e t l r.valid;
      named = λ k f h. ground (arith, lookup-insert e.indigo_device_id k e t, r.named k f);
    })
  ]

  pub load_items_ok :
      (item : Json) (rest : Items) (acc : Table ℤ Entry × ℕ) {e : Entry}
      → from_dict item ≡ ok e
      → load_items loads repr validator (cons item rest) acc
        ≡ load_items loads repr validator rest (keep_entry loads repr validator e acc)
  unfolding load_items
  load_items_ok item rest acc h = rw (h, load_items)

  pub load_items_bad :
      (item : Json) (rest : Items) (acc : Table ℤ Entry × ℕ)
      → from_dict item ≡ err value_error
      → load_items loads repr validator (cons item rest) acc
        ≡ load_items loads repr validator rest (acc.0, acc.1 + 1)
  unfolding load_items
  load_items_bad item rest acc h = rw (h, load_items)

  -- Where the loop ends with a list, an item that was not read raised a ValueError.
  pub load_items_skips :
      (item : Json) (rest : Items) (acc out : Table ℤ Entry × ℕ) (x : Error)
      → from_dict item ≡ err x
      → load_items loads repr validator (cons item rest) acc ≡ ok out
      → load_items loads repr validator rest (acc.0, acc.1 + 1) ≡ ok out
  unfolding load_items
  load_items_skips item rest acc out value_error bad h = sym (load_items_bad item rest acc bad) ∙ h
  load_items_skips item rest acc out _ bad h = ground arith

  load_items-IsRead :
      (items : Items) (acc out : Table ℤ Entry × ℕ)
      → IsRead acc.0
      → load_items loads repr validator items acc ≡ ok out
      → IsRead out.0
  unfolding load_items
  load_items-IsRead nil acc out r h = subst (λ o. IsRead o.0) (ok_injective acc out h) r
  load_items-IsRead (cons item rest) acc out r h = elim (Result-cases (from_dict item)) [
    | inl (e, fine) ↦
        load_items-IsRead rest (keep_entry loads repr validator e acc) out
          (keep_entry-IsRead e acc (from_dict-IsLawful item fine) r)
          (sym (load_items_ok item rest acc fine) ∙ h)
    | inr (x, bad) ↦
        load_items-IsRead rest (acc.0, acc.1 + 1) out r (load_items_skips item rest acc out x bad h)
  ]

  entries-loaded :
      (raw : Json) (prefs : Fields) (acc : Table ℤ Entry × ℕ)
      → (loaded loads repr validator raw prefs acc).entries ≡ acc.0
  unfolding loaded
  entries-loaded raw prefs (t, n) = ground arith

  load_listed-IsRead :
      (raw : Json) (prefs : Fields) (listed : Option Items) (store : Store)
      → load_listed loads repr validator raw prefs listed ≡ ok store
      → IsRead store.entries
  unfolding load_listed corrupt
  load_listed-IsRead raw prefs none store h =
      subst (λ (s : Store). IsRead s.entries) (ok_injective _ store h) []-IsRead
  load_listed-IsRead raw prefs (some items) store h =
      let (acc, p, q) = >>=-eq-ok (load_items loads repr validator items ([], 0)) _ h in
      subst (λ (s : Store). IsRead s.entries) (ok_injective _ store q)
        (rw (entries-loaded raw prefs acc) (load_items-IsRead items ([], 0) acc []-IsRead p))

  -- The store that is built from any prefs holds only lawful entries with known roles and no empty
  -- names, each under its own device id.
  pub load-IsRead :
      (prefs : Fields) (store : Store)
      → load loads repr validator prefs ≡ ok store
      → IsRead store.entries
  unfolding load load_raw
  load-IsRead prefs store h = elim (Bool-cases (truthy (get pref_key prefs))) [
    | inr empty ↦
        subst (λ (s : Store). IsRead s.entries) (ok_injective _ store (rw (empty, load_raw) at h))
          []-IsRead
    | inl there ↦ load_listed-IsRead (get pref_key prefs) prefs _ store (rw (there, load_raw) at h)
  ]
