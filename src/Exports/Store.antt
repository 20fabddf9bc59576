-- ===== src/Exports/Store.antt =====
-- export_store.py, `ExportStore`: the allow-list in memory, its persisted copy in the plugin prefs,
-- and the reader that rebuilds it. A method returns its result and the store that it leaves.
-- The JSON codec, `repr`, the flush of the prefs and the injected validator are parameters.
pub mod Sorting
pub mod Invariant
pub mod Commit
pub mod Lookup
pub mod Load
pub mod Recovery
pub mod Rescue
pub mod Returns
pub mod Examples
use indigo_matter.Prelude.{
  ℕ, suc, ◌+◌, ◌==◌, String, Bool, true, false, ◌&&◌, Option, none, some, List, [], ◌∷◌, ℤ, pos,
  eq_ℤ, leb_ℤ, ltb_ℤ, is_some, if◌then◌else◌,
}
use indigo_matter.Python.{
  Json, null, bool, int, float, finite, str, list, dict, Items, nil, cons, Fields, end, field,
  value_error, save_error, Result, ok, err, ◌>>=◌, ◌>>◌, truthy,
}
use indigo_matter.Python.Dict
use indigo_matter.Python.Dict.{get, has}
use indigo_matter.Python.Table
use indigo_matter.Python.Table.{Table, int_key}
use indigo_matter.Exports.Options.{validate_options}
use indigo_matter.Exports.Entry.{Entry, to_dict, from_dict, check_published_as}

abbrev pub pref_key : String
pref_key = "matterExports"

abbrev pub pref_key_corrupt : String
pref_key_corrupt = "matterExports.corrupt"

abbrev pub key_version : String
key_version = "v"

abbrev pub key_exports : String
key_exports = "exports"

pub data LoadError : Type 0 where
  unreadable : LoadError
  dropped : ℕ → LoadError

pub record Store : Type 0 where
  pub entries : Table ℤ Entry
  pub load_error : Option LoadError
  pub prefs : Fields

-- How the flush of a write ended: it was done, it raised and the pref was put back, or it raised and
-- so did putting the pref back.
pub data Flush : Type 0 where
  flushed failed stuck : Flush

-- The injected validator's answer: a verdict, or an exception.
pub data Verdict : Type 0 where
  accepted refused raised : Verdict

pub insert_sorted : ℤ → Entry → Table ℤ Entry → Table ℤ Entry
insert_sorted k e [] = (k, e) ∷ []
insert_sorted k e ((j, f) ∷ t) =
    if ltb_ℤ k j then (k, e) ∷ (j, f) ∷ t else (j, f) ∷ insert_sorted k e t

-- The entries in the order of `sorted(pending)`.
pub sort_entries : Table ℤ Entry → Table ℤ Entry
sort_entries [] = []
sort_entries ((k, e) ∷ t) = insert_sorted k e (sort_entries t)

pub items_of : Table ℤ Entry → Items
items_of [] = nil
items_of ((k, e) ∷ t) = cons (to_dict e) (items_of t)

pub payload_of : Table ℤ Entry → Json
payload_of pending = dict (
    field key_version (int (pos 1))
      (field key_exports (list (items_of (sort_entries pending))) end))

pub values : Table ℤ Entry → List Entry
values [] = []
values ((k, e) ∷ t) = e ∷ values t

unfoldable pub all : Store → List Entry
unfolding values sort_entries insert_sorted
all store = values (sort_entries store.entries)

-- `get(device_id)`; `device_id in store` asks the same lookup.
unfoldable pub find : Store → ℤ → Option Entry
find store device_id = Table.lookup device_id store.entries

unfoldable pub contains : Store → ℤ → Bool
unfolding find
contains store device_id = is_some (find store device_id)

-- The two checks that `upsert` and `replace_all` make before they write.
pub check_entry : Entry → Result (Unit {0})
check_entry entry = do
  check_published_as entry.published_as
  validate_options entry.options entry.role

pub check_entries : List Entry → Result (Unit {0})
unfolding check_entry
check_entries [] = ok tt
check_entries (entry ∷ rest) = do check_entry entry; check_entries rest

-- `{int(e.indigo_device_id): e for e in materialized}`
pub by_device_id : List Entry → Table ℤ Entry → Table ℤ Entry
by_device_id [] t = t
by_device_id (e ∷ rest) t = by_device_id rest (Table.insert e.indigo_device_id e t)

-- `payload.get("v") != 1`: the values that equal 1 are 1, 1.0 and True.
pub is_schema_version : Json → Bool
is_schema_version (int z) = eq_ℤ z (pos 1)
is_schema_version (bool b) = b
is_schema_version (float (finite z whole)) = eq_ℤ z (pos 1) && whole
is_schema_version _ = false

abbrev is_str : Json → Bool
is_str (str s) = true
is_str _ = false

module _ (dumps : Json → String) where
  pub commit : Flush → Table ℤ Entry → Store → Result (Unit {0}) × Store
  commit flush pending store =
      let written = Dict.insert pref_key (str (dumps (payload_of pending))) store.prefs in
      let restored =
        if has pref_key store.prefs
        then Dict.insert pref_key (get pref_key store.prefs) written
        else Dict.without (pref_key ∷ []) written in
      elim flush [
        | flushed ↦ (ok tt, record store { entries = pending; prefs = written })
        | failed ↦ (err save_error, record store { prefs = restored })
        | stuck ↦ (err save_error, record store { prefs = written })
      ]

  -- The result of a commit, with what the method returns if it succeeds.
  abbrev returning {ℓ} : {A : Type ℓ} → A → Result (Unit {0}) × Store → Result A × Store
  returning a (ok _, store) = (ok a, store)
  returning a (err e, store) = (err e, store)

  unfoldable pub upsert : Flush → Entry → Store → Result Entry × Store
  upsert flush entry store = elim (check_entry entry) [
    | err e ↦ (err e, store)
    | ok _ ↦
        returning entry
          (commit flush (Table.insert entry.indigo_device_id entry store.entries) store)
  ]

  unfoldable pub remove : Flush → ℤ → Store → Result Bool × Store
  remove flush device_id store =
      if is_some (Table.lookup device_id store.entries)
      then returning true (commit flush (Table.remove device_id store.entries) store)
      else (ok false, store)

  unfoldable pub replace_all : Flush → List Entry → Store → Result (Unit {0}) × Store
  replace_all flush entries store = elim (check_entries entries) [
    | err e ↦ (err e, store)
    | ok _ ↦ commit flush (by_device_id entries []) store
  ]

module _ (loads : String → Option Json) (repr : Json → String) (validator : Entry → Verdict) where
  -- `_reject`: a validator that raises is overruled, and the entry kept.
  pub reject : Entry → Bool
  reject entry = elim (validator entry) [ accepted ↦ false | refused ↦ true | raised ↦ false ]

  pub keep_entry : Entry → Table ℤ Entry × ℕ → Table ℤ Entry × ℕ
  keep_entry entry (entries, count) =
      if reject entry
      then (entries, count + 1)
      else (Table.insert entry.indigo_device_id entry entries, count)

  -- The loop over the listed items; an exception that is no ValueError leaves it.
  pub load_items : Items → Table ℤ Entry × ℕ → Result (Table ℤ Entry × ℕ)
  load_items nil acc = ok acc
  load_items (cons item rest) acc = elim (from_dict item) [
    | ok entry ↦ load_items rest (keep_entry entry acc)
    | err value_error ↦ load_items rest (acc.0, acc.1 + 1)
    | err e ↦ err e
  ]

  -- Moves an unreadable blob aside, unless an earlier one is there.
  pub preserve : Json → Fields → Fields
  preserve raw prefs =
      if truthy (get pref_key_corrupt prefs)
      then prefs
      else Dict.insert pref_key_corrupt (if is_str raw then raw else str (repr raw)) prefs

  pub corrupt : Json → Fields → Store
  corrupt raw prefs = record {
    entries = [];
    load_error = some unreadable;
    prefs = preserve raw prefs;
  }

  -- `json.loads(raw)`; a value that is no text is its TypeError.
  pub parse_blob : Json → Option Json
  parse_blob (str s) = loads s
  parse_blob _ = none

  -- The `exports` list of a payload of the right schema.
  pub listed_of : Option Json → Option Items
  listed_of (some (dict payload)) =
      if is_schema_version (get key_version payload)
      then elim (get key_exports payload) [ list items ↦ some items | _ ↦ none ]
      else none
  listed_of _ = none

  pub loaded : Json → Fields → Table ℤ Entry × ℕ → Store
  loaded raw prefs (entries, n) =
      if n == 0
      then record { entries = entries; load_error = none; prefs = prefs }
      else record { entries = entries; load_error = some (dropped n); prefs = preserve raw prefs }

  -- What follows the checks of the payload.
  pub load_listed : Json → Fields → Option Items → Result Store
  load_listed raw prefs none = ok (corrupt raw prefs)
  load_listed raw prefs (some items) = do acc ← load_items items ([], 0); ok (loaded raw prefs acc)

  -- What follows the read of the pref.
  pub load_raw : Json → Fields → Result Store
  load_raw raw prefs =
      if truthy raw
      then load_listed raw prefs (listed_of (parse_blob raw))
      else ok (record { entries = []; load_error = none; prefs = prefs })

  -- `_load`, from the prefs that the constructor finds.
  unfoldable pub load : Fields → Result Store
  load prefs = load_raw (get pref_key prefs) prefs
