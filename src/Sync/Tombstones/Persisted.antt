-- ===== src/Sync/Tombstones/Persisted.antt =====
-- device_sync.py, `NodeDeviceTombstones`: a tombstone outlives a restart.
use indigo_matter.Prelude.{
  String, Bool, true, false, ◌||◌, Option, some, List, [], ◌∷◌, ℤ, str_eq, eq_iff, length, ◌==◌,
  ◌≡◌, refl, ap, ◌∙◌, arith, Bool-cases, inl, inr, if◌then◌else◌,
}
use indigo_matter.Python.{Json, str, list, strip_text}
use indigo_matter.Sync.Tombstones.{
  Tombstones, contains, key_of, add_key, discard_key, insert_key, sorted_keys, texts, to_json,
  persist, add, forget, clear_all, is_tombstoned, keys_of, parsed_keys, stored_keys, load,
}

module _ (key : String) where
  contains-add_key :
      (k : String) (keys : List String)
      → contains key (add_key k keys) ≡ (str_eq key k || contains key keys)
  unfolding add_key
  contains-add_key k keys = ground (arith, eq_iff key k, ap (λ (x : String). contains x keys))

  contains-discard_key :
      (k : String) (keys : List String)
      → contains key (discard_key k keys) ≡ (if str_eq k key then false else contains key keys)
  unfolding discard_key
  contains-discard_key k [] = ground arith
  contains-discard_key k (j ∷ keys) =
      ground (arith, eq_iff k key, eq_iff k j, eq_iff key j, contains-discard_key k keys)

  contains-insert_key :
      (k : String) (keys : List String)
      → contains key (insert_key k keys) ≡ (str_eq key k || contains key keys)
  unfolding insert_key
  contains-insert_key k [] = refl
  contains-insert_key k (j ∷ keys) = ground (arith, contains-insert_key k keys)

  contains-sorted_keys : (keys : List String) → contains key (sorted_keys keys) ≡ contains key keys
  unfolding sorted_keys
  contains-sorted_keys [] = refl
  contains-sorted_keys (k ∷ keys) =
      contains-insert_key k (sorted_keys keys)
      ∙ ap (λ b. str_eq key k || b) (contains-sorted_keys keys)

  module _ (loads : String → Option Json) (to_str : Json → String) where
    contains-keys_of :
        (keys : List String) → contains key (keys_of loads to_str (texts keys)) ≡ contains key keys
    unfolding keys_of texts
    contains-keys_of [] = refl
    contains-keys_of (k ∷ keys) =
        contains-add_key k (keys_of loads to_str (texts keys))
        ∙ ap (λ b. str_eq key k || b) (contains-keys_of keys)

-- What the operations do to the nodes that are tombstoned.
module _ (dumps : Json → String) (saves : Bool) (t : Tombstones) where
  tombstoned-persist : (s : Tombstones) → (persist dumps saves s).tombstoned ≡ s.tombstoned
  unfolding persist
  tombstoned-persist s = elim (Bool-cases saves) [ inl done ↦ rw done | inr raised ↦ rw raised ]

  -- Recording a deletion tombstones that node and no other, forgetting a node lifts its tombstone and
  -- no other, and clearing lifts them all, whether the save goes through or raises. Nodes are told
  -- apart by the decimal text of their ids.
  pub is_tombstoned_lem :
      (node_id other : ℤ)
      → (is_tombstoned other (add dumps saves node_id t)
          ≡ (str_eq (key_of other) (key_of node_id) || is_tombstoned other t))
        × (is_tombstoned other (forget dumps saves node_id t)
            ≡ (if str_eq (key_of node_id) (key_of other) then false else is_tombstoned other t))
        × (is_tombstoned other (clear_all dumps saves t).1 ≡ false)
  unfolding is_tombstoned add forget clear_all
  is_tombstoned_lem node_id other = (
    rw (tombstoned-persist (record t { tombstoned = add_key (key_of node_id) t.tombstoned }))
        (contains-add_key (key_of other) (key_of node_id) t.tombstoned),
    elim (Bool-cases (contains (key_of node_id) t.tombstoned)) [
      | inl there ↦
          rw
            (
              there,
              tombstoned-persist
                  (record t { tombstoned = discard_key (key_of node_id) t.tombstoned }),
            )
            (contains-discard_key (key_of other) (key_of node_id) t.tombstoned)
      | inr absent ↦ rw absent (contains-discard_key (key_of other) (key_of node_id) t.tombstoned)
    ],
    elim (Bool-cases (length t.tombstoned == 0)) [
      | inl empty ↦ rw empty
      | inr some_there ↦ rw (some_there, tombstoned-persist (record t { tombstoned = [] }))
    ],
  )

-- The codec of the prefs on the list of the tombstoned nodes: its text is not blank, and decodes to it.
pub record IsCoded (dumps : Json → String) (loads : String → Option Json) (t : Tombstones)
    : Type 0 where
  pub decodes : loads (to_json dumps t) ≡ some (list (texts (sorted_keys t.tombstoned)))
  pub nonblank : str_eq (strip_text (to_json dumps t)) "" ≡ false

saved-add :
    (dumps : Json → String) (node_id : ℤ) (t : Tombstones)
    → (add dumps true node_id t).saved ≡ some (to_json dumps (add dumps true node_id t))
unfolding add persist to_json
saved-add dumps node_id t = refl

load-to_json :
    (dumps : Json → String) (loads : String → Option Json) (to_str : Json → String)
    (t fresh : Tombstones)
    → IsCoded dumps loads t
    → (other : ℤ)
    → is_tombstoned other (load loads to_str (str (to_json dumps t)) fresh) ≡ is_tombstoned other t
unfolding load is_tombstoned stored_keys parsed_keys
load-to_json dumps loads to_str t fresh codec other =
    rw (codec.nonblank, codec.decodes)
      (contains-keys_of (key_of other) loads to_str (sorted_keys t.tombstoned)
        ∙ contains-sorted_keys (key_of other) t.tombstoned)

-- A deletion whose save goes through is stored, and a start that loads what was stored, into whatever
-- the object held, tombstones exactly the nodes that were tombstoned, if the codec
-- decodes what it encoded.
pub load-add :
    (dumps : Json → String) (loads : String → Option Json) (to_str : Json → String) (node_id : ℤ)
    (t fresh : Tombstones)
    → IsCoded dumps loads (add dumps true node_id t)
    → let after = add dumps true node_id t in
      (after.saved ≡ some (to_json dumps after))
      × ((other : ℤ)
          → is_tombstoned other (load loads to_str (str (to_json dumps after)) fresh)
            ≡ is_tombstoned other after)
load-add dumps loads to_str node_id t fresh codec = (
  saved-add dumps node_id t,
  λ other. load-to_json dumps loads to_str (add dumps true node_id t) fresh codec other,
)
