-- ===== src/Exports/Store/Examples.antt =====
-- export_store.py: a list of one lamp, through its writes and its loads.
use mathlib.Core.Path.{subst}
use indigo_matter.Prelude.{
  some_injective, true, sym, ◌∙◌, String, Option, none, some, [], ◌∷◌, ℤ, pos, eq_ℤ, ◌≡◌, refl,
  arith, if◌then◌else◌,
}
use indigo_matter.Python.{
  Items, Json, str, int, list, nil, cons, Fields, end, field, ok, truthy, int_of,
}
use indigo_matter.Python.Dict
use indigo_matter.Python.Table
use indigo_matter.Python.Table.{Table, int_key, lookup}
use indigo_matter.Exports.Entry.{Entry, read_device_id, key_role, key_device_id}
use indigo_matter.Exports.Entry.RoundTrip.{IsNamed}
use indigo_matter.Exports.Entry.Examples.{lamp, lamp-IsLawful, lamp-IsNamed}
use indigo_matter.Exports.Store
use indigo_matter.Exports.Store.{
  Store, Flush, flushed, failed, Verdict, accepted, payload_of, find, contains, upsert, replace_all,
  commit, load, load_items, pref_key, unreadable,
}
use indigo_matter.Exports.Store.Invariant.{IsValid, []-IsValid, insert-IsValid, writes-IsValid}
use indigo_matter.Exports.Store.Commit.{IsSettled, writes-IsSettled}
use indigo_matter.Exports.Store.Lookup.{IsWritten, writes-IsWritten}
use indigo_matter.Exports.Store.Load.{IsRead, load-IsRead}
use indigo_matter.Exports.Store.Recovery.{IsCoded, load-commit}
use indigo_matter.Exports.Store.{
  parse_blob, listed_of, items_of, sort_entries, insert_sorted, is_schema_version,
}
use indigo_matter.Exports.Store.Returns.{AllReadable, load_returns}
use indigo_matter.Exports.Entry.{to_dict}
use indigo_matter.Exports.Entry.Returns.{is_readable}

abbrev pub lamps : Table ℤ Entry
lamps = (pos 17, lamp) ∷ []

pub lamps-IsValid : IsValid lamps
unfolding Table.insert
lamps-IsValid = insert-IsValid lamp [] lamp-IsLawful []-IsValid

abbrev pub before : Store
before = record { entries = lamps; load_error = none; prefs = end }

abbrev pub dumps : Json → String
dumps j = "[…]"

abbrev loads : String → Option Json
loads s = some (payload_of lamps)

abbrev no_loads : String → Option Json
no_loads s = none

abbrev accept : Entry → Verdict
accept e = accepted

the_lamp : (k : ℤ) (e : Entry) → lookup k lamps ≡ some e → lamp ≡ e
unfolding lookup
the_lamp k e h = ground arith

only_lamp : (k : ℤ) (e : Entry) → lookup k lamps ≡ some e → IsNamed e × (accept e ≡ accepted)
only_lamp k e h = (subst IsNamed (the_lamp k e h) lamp-IsNamed, refl)

codec : IsCoded dumps loads (payload_of lamps)
unfolding truthy
codec = record { decodes = refl; nonempty = refl }

writes-IsSettled_example :
    IsSettled dumps failed before
      (upsert dumps failed lamp before).0
      (upsert dumps failed lamp before).1
writes-IsSettled_example = (writes-IsSettled dumps failed before).0 lamp

writes-IsValid_example : IsValid (Store.remove dumps failed (pos 17) before).1.entries
writes-IsValid_example = (writes-IsValid dumps failed before lamps-IsValid).1 (pos 17)

writes-IsWritten_example :
    IsWritten
      (Store.remove dumps flushed (pos 17) before).0
      before
      (Store.remove dumps flushed (pos 17) before).1
      (λ k. if eq_ℤ (pos 17) k then none else find before k)
writes-IsWritten_example = (writes-IsWritten dumps flushed before lamps-IsValid).1 (pos 17)

abbrev show : Json → String
show j = "?"

abbrev saved_prefs : Fields
saved_prefs = (commit dumps flushed lamps before).1.prefs

load-commit_example :
    (s : Store) × (load loads show accept saved_prefs ≡ ok s)
    × ((k : ℤ) → lookup k s.entries ≡ lookup k lamps)
    × (s.load_error ≡ none)
load-commit_example = load-commit dumps loads show accept lamps before codec lamps-IsValid only_lamp

reread :
    (s : Store) × (load loads show accept saved_prefs ≡ ok s)
    × ((k : ℤ) → lookup k s.entries ≡ lookup k lamps)
    × (s.load_error ≡ none)
reread = load-commit dumps loads show accept lamps before codec lamps-IsValid only_lamp

load-IsRead_example : IsRead reread.0.entries
load-IsRead_example = load-IsRead loads show accept saved_prefs reread.0 reread.1

abbrev broken : Fields
broken = field pref_key (str "{") end

abbrev rescued : Store
rescued = record {
  entries = [];
  load_error = some unreadable;
  prefs = field pref_key (str "{") (field "matterExports.corrupt" (str "{") end);
}

abbrev listed_role : Fields
listed_role = field key_device_id (int (pos 17)) (field key_role (list nil) end)

listed_role_id : read_device_id listed_role ≡ ok (pos 17)
unfolding read_device_id int_of Dict.lookup
listed_role_id = refl

listed_role_lem : Dict.get key_role listed_role ≡ list nil
unfolding Dict.lookup
listed_role_lem = refl

-- The rows that are listed in the saved prefs.
lamps_listed :
    listed_of loads show accept (parse_blob loads show accept (Dict.get pref_key saved_prefs))
    ≡ some (cons (to_dict lamp) nil)
unfolding commit parse_blob listed_of payload_of items_of sort_entries insert_sorted
    is_schema_version Dict.lookup Dict.insert
lamps_listed = refl

lamp_readable : is_readable (to_dict lamp) ≡ true
unfolding to_dict Dict.lookup
lamp_readable = refl

lamps-AllReadable :
    (items : Items)
    → listed_of loads show accept (parse_blob loads show accept (Dict.get pref_key saved_prefs))
      ≡ some items
    → AllReadable items
lamps-AllReadable items h =
    subst AllReadable (some_injective (cons (to_dict lamp) nil) items (sym lamps_listed ∙ h))
      (lamp_readable, tt)

load_returns_example : (s : Store) × (load loads show accept saved_prefs ≡ ok s)
load_returns_example = load_returns loads show accept saved_prefs lamps-AllReadable
