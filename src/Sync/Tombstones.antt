-- ===== src/Sync/Tombstones.antt =====
-- device_sync.py, `NodeDeviceTombstones` and `_salvage_node_id`: the nodes whose node device was
-- deleted on purpose. The JSON codec, `str(value)` of a value that is no text, and the save are
-- parameters. A set is a list in which nothing stands twice.
pub mod Persisted
pub mod Examples
use Prim.Native.String
use Prim.Native.Nat.{Ordering}
use indigo_matter.Prelude.{
  ℕ, String, Bool, true, false, ◌&&◌, not, Option, none, some, List, [], ◌∷◌, ℤ, any, str_eq,
  length, ◌==◌, if◌then◌else◌,
}
use indigo_matter.Python.{
  Json, int, str, list, dict, Items, nil, cons, strip_text, int_of_str_base_0,
}
use indigo_matter.Python.Dict.{get}
use indigo_matter.Exports.Identity.{str_int}

-- `saved` is the text that the last save that went through stored.
pub record Tombstones : Type 0 where
  pub tombstoned : List String
  pub saved : Option String

abbrev pub contains : String → List String → Bool
contains key keys = any (str_eq key) keys

-- `str(int(node_id))`
unfoldable pub key_of : ℤ → String
key_of node_id = str_int node_id ""

pub add_key : String → List String → List String
add_key key keys = if contains key keys then keys else key ∷ keys

pub discard_key : String → List String → List String
discard_key key [] = []
discard_key key (k ∷ rest) =
    let others = discard_key key rest in if str_eq key k then others else k ∷ others

pub insert_key : String → List String → List String
insert_key k [] = k ∷ []
insert_key k (j ∷ rest) =
    let later = j ∷ insert_key k rest in
    elim (String.compare j k) [ Ordering.lt ↦ later | _ ↦ k ∷ j ∷ rest ]

-- `sorted(self._tombstoned)`
pub sorted_keys : List String → List String
unfolding insert_key
sorted_keys [] = []
sorted_keys (k ∷ rest) = insert_key k (sorted_keys rest)

pub texts : List String → Items
texts [] = nil
texts (k ∷ rest) = cons (str k) (texts rest)

module _ (dumps : Json → String) where
  unfoldable pub to_json : Tombstones → String
  to_json t = dumps (list (texts (sorted_keys t.tombstoned)))

  -- `_persist`: a save that raises is absorbed.
  pub persist : Bool → Tombstones → Tombstones
  persist saves t = if saves then record t { saved = some (to_json t) } else t

  unfoldable pub add : Bool → ℤ → Tombstones → Tombstones
  add saves node_id t =
      persist saves (record t { tombstoned = add_key (key_of node_id) t.tombstoned })

  unfoldable pub forget : Bool → ℤ → Tombstones → Tombstones
  forget saves node_id t =
      let after = record t { tombstoned = discard_key (key_of node_id) t.tombstoned } in
      if contains (key_of node_id) t.tombstoned then persist saves after else after

  unfoldable pub clear_all : Bool → Tombstones → ℕ × Tombstones
  clear_all saves t =
      let after = record t { tombstoned = [] } in
      (length t.tombstoned, if length t.tombstoned == 0 then after else persist saves after)

unfoldable pub is_tombstoned : ℤ → Tombstones → Bool
is_tombstoned node_id t = contains (key_of node_id) t.tombstoned

module _ (loads : String → Option Json) (to_str : Json → String) where
  -- `str(v)`
  pub text_of : Json → String
  text_of (str s) = s
  text_of v = to_str v

  -- `{str(v) for v in raw}`
  pub keys_of : Items → List String
  unfolding text_of
  keys_of nil = []
  keys_of (cons v rest) = add_key (text_of v) (keys_of rest)

  pub parsed_keys : Option Json → List String
  unfolding keys_of
  parsed_keys (some (list items)) = keys_of items
  parsed_keys _ = []

  -- The keys of a stored value; anything that is unusable holds none.
  pub stored_keys : Json → List String
  unfolding parsed_keys
  stored_keys (str blob) = if str_eq (strip_text blob) "" then [] else parsed_keys (loads blob)
  stored_keys _ = []

  unfoldable pub load : Json → Tombstones → Tombstones
  load blob t = record t { tombstoned = stored_keys blob }

-- `_salvage_node_id`
unfoldable pub salvage_node_id : Json → Option ℤ
salvage_node_id (dict raw) = elim (get "node_id" raw) [
  | int z ↦ some z
  | str s ↦ int_of_str_base_0 s
  | _ ↦ none
]
salvage_node_id _ = none
