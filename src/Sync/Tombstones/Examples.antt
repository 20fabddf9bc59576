-- ===== src/Sync/Tombstones/Examples.antt =====
-- device_sync.py: a node device that was deleted.
use indigo_matter.Prelude.{String, true, Option, none, some, [], ◌∷◌, ℤ, pos, ◌≡◌, refl}
use indigo_matter.Python.{Json, str, list, nil, cons, strip_text}
use indigo_matter.Exports.Identity.{str_int, digits_of, digit}
use indigo_matter.Sync.Tombstones.{
  Tombstones, key_of, to_json, persist, add, is_tombstoned, load, add_key, sorted_keys, insert_key,
  texts,
}
use indigo_matter.Sync.Tombstones.Persisted.{IsCoded, load-add}

abbrev one : Tombstones
one = record { tombstoned = "5" ∷ []; saved = none }

abbrev nothing : Tombstones
nothing = record { tombstoned = []; saved = none }

abbrev dumps : Json → String
dumps j = "[…]"

abbrev loads : String → Option Json
loads s = some (list (cons (str "5") nil))

abbrev show : Json → String
show j = "?"

codec : IsCoded dumps loads (add dumps true (pos 5) nothing)
unfolding add persist to_json strip_text sorted_keys insert_key texts add_key key_of str_int
    digits_of digit
codec = record { decodes = refl; nonblank = refl }

load-add_example :
    ((add dumps true (pos 5) nothing).saved ≡ some (to_json dumps (add dumps true (pos 5) nothing)))
    × ((other : ℤ)
        → is_tombstoned other
            (load loads show (str (to_json dumps (add dumps true (pos 5) nothing))) nothing)
          ≡ is_tombstoned other (add dumps true (pos 5) nothing))
load-add_example = load-add dumps loads show (pos 5) nothing nothing codec
