-- ===== src/Exports/Store/Recovery.antt =====
-- Reading back what was written.
use indigo_matter.Prelude.{
  ℕ, String, true, Option, none, some, [], ◌∷◌, ℤ, ◌≡◌, ap, sym, ◌∙◌, refl, arith,
}
use indigo_matter.Python.{Json, str, Items, Fields, ok, truthy}
use indigo_matter.Python.Dict
use indigo_matter.Python.Dict.{get}
use indigo_matter.Python.Table.{Table, int_key, eq_ℤ_iff, lookup, insert, IsUnique, lookup-insert}
use indigo_matter.Exports.Entry.{Entry, to_dict}
use indigo_matter.Exports.Entry.RoundTrip.{IsLawful, IsNamed, from_dict-to_dict}
use indigo_matter.Exports.Store.{
  Store, Verdict, accepted, flushed, reject, keep_entry, load_items, parse_blob, listed_of, loaded,
  load_listed, load_raw, load, pref_key, sort_entries, items_of, payload_of, commit,
  is_schema_version,
}
use indigo_matter.Exports.Store.Sorting.{lookup-sort_entries, sort_entries-IsUnique}
use indigo_matter.Exports.Store.Invariant.{IsValid}
use indigo_matter.Exports.Store.Commit.{commit_flushed}
use indigo_matter.Exports.Store.Load.{load_items_ok}

-- All entries of a table, by position.
abbrev Each : (Entry → Type 0) → Table ℤ Entry → Type 0
Each P [] = Unit
Each P ((k, e) ∷ t) = (e.indigo_device_id ≡ k) × P e × Each P t

-- The entries inserted one by one, in order.
insert_all : Table ℤ Entry → Table ℤ Entry → Table ℤ Entry
insert_all [] acc = acc
insert_all ((k, e) ∷ t) acc = insert_all t (insert k e acc)

abbrev or_else : Option Entry → Option Entry → Option Entry
or_else none b = b
or_else (some a) b = some a

lookup-insert_all :
    (j : ℤ) (t acc : Table ℤ Entry)
    → IsUnique t
    → lookup j (insert_all t acc) ≡ or_else (lookup j t) (lookup j acc)
unfolding insert_all lookup
lookup-insert_all j [] acc u = refl
lookup-insert_all j ((k, e) ∷ t) acc u =
    lookup-insert_all j t (insert k e acc) u.1
    ∙ ground (arith, lookup-insert k j e acc, eq_ℤ_iff k j)

or_else-none : (o : Option Entry) → or_else o none ≡ o
or_else-none none = refl
or_else-none (some e) = refl

lookup-insert_all_empty :
    (j : ℤ) (t : Table ℤ Entry) → IsUnique t → lookup j (insert_all t []) ≡ lookup j t
unfolding lookup
lookup-insert_all_empty j t u = lookup-insert_all j t [] u ∙ or_else-none (lookup j t)

module _ (loads : String → Option Json) (repr : Json → String) (validator : Entry → Verdict) where
  -- What is read back: lawful, named, and accepted by the validator.
  abbrev IsReadable : Entry → Type 0
  IsReadable e = IsLawful e × IsNamed e × (validator e ≡ accepted)

  keep_entry-accepted :
      (e : Entry) (t : Table ℤ Entry) (n : ℕ)
      → validator e ≡ accepted
      → keep_entry loads repr validator e (t, n) ≡ (insert e.indigo_device_id e t, n)
  unfolding keep_entry reject
  keep_entry-accepted e t n h = rw (h, reject)

  load_items-items_of :
      (t acc : Table ℤ Entry) (n : ℕ)
      → Each IsReadable t
      → load_items loads repr validator (items_of t) (acc, n) ≡ ok (insert_all t acc, n)
  unfolding items_of insert_all load_items
  load_items-items_of [] acc n h = refl
  load_items-items_of ((k, e) ∷ t) acc n (keyed, (lawful, named, fine), rest) =
      load_items_ok loads repr validator (to_dict e) (items_of t) (acc, n)
        (from_dict-to_dict e lawful named)
      ∙ rw (keep_entry-accepted e acc n fine)
          (simp keyed (load_items-items_of t (insert k e acc) n rest))

module _ (loads : String → Option Json) (repr : Json → String) (validator : Entry → Verdict) where
  get_of_lookup :
      (prefs : Fields) (v : Json) → Dict.lookup pref_key prefs ≡ some v → get pref_key prefs ≡ v
  get_of_lookup prefs v h = rw (h, get)

  load_of_blob :
      (prefs : Fields) (blob : String) (j : Json) (items : Items) (t : Table ℤ Entry)
      → Dict.lookup pref_key prefs ≡ some (str blob)
      → truthy (str blob) ≡ true
      → loads blob ≡ some j
      → listed_of loads repr validator (some j) ≡ some items
      → load_items loads repr validator items ([], 0) ≡ ok (t, 0)
      → load loads repr validator prefs
        ≡ ok (record { entries = t; load_error = none; prefs = prefs })
  unfolding load load_raw load_listed parse_blob loaded
  load_of_blob prefs blob j items t there full decoded listed read =
      ap (λ raw. load_raw loads repr validator raw prefs) (get_of_lookup prefs (str blob) there)
      ∙ rw (full, decoded, listed, read)

Each-lookup :
    (P : Entry → Type 0) (t : Table ℤ Entry)
    → IsUnique t
    → ((k : ℤ) (e : Entry) → lookup k t ≡ some e → (e.indigo_device_id ≡ k) × P e)
    → Each P t
unfolding lookup
Each-lookup P [] u h = tt
Each-lookup P ((k, e) ∷ t) u h =
    let (keyed, p) = h k e (ground (arith, eq_ℤ_iff k k)) in
    (keyed, p, Each-lookup P t u.1 (λ j f at. h j f (ground (arith, eq_ℤ_iff k j, u.0))))

-- The codec of the prefs on one value: its text is not empty, and decodes to it.
pub record IsCoded (dumps : Json → String) (loads : String → Option Json) (j : Json) : Type 0 where
  pub decodes : loads (dumps j) ≡ some j
  pub nonempty : truthy (str (dumps j)) ≡ true

module _ (dumps : Json → String) (loads : String → Option Json) (repr : Json → String)
    (validator : Entry → Verdict) where
  listed_of-payload_of :
      (t : Table ℤ Entry)
      → listed_of loads repr validator (some (payload_of t)) ≡ some (items_of (sort_entries t))
  unfolding listed_of payload_of Dict.lookup is_schema_version
  listed_of-payload_of t = refl

  -- A valid list that was written, if its payload survives the codec and each entry has a known role,
  -- no empty name, and the validator's consent, is read back at the next start with the same entry
  -- under each device id and with no error.
  pub load-commit :
      (pending : Table ℤ Entry) (store : Store)
      → IsCoded dumps loads (payload_of pending)
      → IsValid pending
      → ((k : ℤ) (e : Entry) → lookup k pending ≡ some e → IsNamed e × (validator e ≡ accepted))
      → (s : Store) × (load loads repr validator (commit dumps flushed pending store).1.prefs
          ≡ ok s)
        × ((k : ℤ) → lookup k s.entries ≡ lookup k pending)
        × (s.load_error ≡ none)
  load-commit pending store codec v fine =
      let prefs = (commit dumps flushed pending store).1.prefs in
      let sorted = sort_entries pending in
      (
        record { entries = insert_all sorted []; load_error = none; prefs = prefs },
        load_of_blob loads repr validator prefs (dumps (payload_of pending)) (payload_of pending)
            (items_of sorted) (insert_all sorted []) (commit_flushed dumps pending store)
            codec.nonempty codec.decodes (listed_of-payload_of pending)
            (load_items-items_of loads repr validator sorted [] 0 (
              Each-lookup _ sorted (sort_entries-IsUnique pending v.unique) (λ k e at.
                let there = sym (lookup-sort_entries k pending v.unique) ∙ at in
                (
                  v.keyed k e there,
                  (v.lawful k e there, (fine k e there).0, (fine k e there).1),
                )))),
        λ k.
            lookup-insert_all_empty k sorted (sort_entries-IsUnique pending v.unique)
            ∙ lookup-sort_entries k pending v.unique,
        refl,
      )
