-- ===== src/Push.antt =====
-- export_handlers.py and export_bridge.py: what the bridge node is told of an exported device. The
-- difference of a reading from the last push, with its tolerances, and the snapshot of the pushes.
-- A bool is its int, as Python compares them; a reading is taken in units in which it is whole.
pub mod Told
pub mod Examples
use indigo_matter.Prelude.{
  ℕ, String, Bool, true, false, ◌&&◌, ◌||◌, not, Option, none, some, List, [], ◌∷◌, ℤ, ◌-ℤ◌, abs,
  eq_ℤ, ltb, str_eq, any, is_some, if◌then◌else◌,
}
use indigo_matter.Python.Table
use indigo_matter.Python.Table.{Table, text_key}

pub data Value : Type 0 where
  number : ℤ → Value
  text : String → Value

-- Reported states, by their §4.2 keys.
abbrev pub States : Type 0
States = Table String Value

-- What a handler's class says of its keys.
pub record ExportHandler : Type 0 where
  pub tolerances : Table String ℕ
  pub mode_alternating_keys : List String

abbrev pub hue_tolerance_degrees : ℕ
hue_tolerance_degrees = 1

abbrev pub ct_tolerance_mireds : ℕ
ct_tolerance_mireds = 30

abbrev pub color_temperature_light : ExportHandler
color_temperature_light = record {
  tolerances = ("colorTempMireds", ct_tolerance_mireds) ∷ [];
  mode_alternating_keys = [];
}

abbrev pub extended_color_light : ExportHandler
extended_color_light = record {
  tolerances = ("hue", hue_tolerance_degrees) ∷ ("colorTempMireds", ct_tolerance_mireds) ∷ [];
  mode_alternating_keys = "colorTempMireds" ∷ "hue" ∷ "saturation" ∷ [];
}

-- `before != after`
unfoldable pub differs : Value → Value → Bool
differs (number a) (number b) = not (eq_ℤ a b)
differs (text s) (text t) = not (str_eq s t)
differs _ _ = true

-- The tail of `_changed`; text has no distance.
unfoldable pub is_beyond : Option ℕ → Value → Value → Bool
is_beyond (some tolerance) (number a) (number b) = ltb tolerance (abs (b -ℤ a))
is_beyond _ before after = differs before after

-- `_changed`; a key that was absent has changed.
unfoldable pub is_changed : ExportHandler → String → Option Value → Value → Bool
is_changed h key none after = true
is_changed h key (some before) after = is_beyond (Table.lookup key h.tolerances) before after

-- The keys of a new reading that go on the wire.
unfoldable pub changed : ExportHandler → States → States → States
changed h before [] = []
changed h before ((key, v) ∷ after) =
    let rest = changed h before after in
    if is_changed h key (Table.lookup key before) v then (key, v) ∷ rest else rest

abbrev pub has_key : States → String → Bool
has_key states key = is_some (Table.lookup key states)

-- The keys of a table for which a test holds.
unfoldable pub keys_where : (String → Bool) → States → List String
keys_where p [] = []
keys_where p ((key, _) ∷ rest) =
    let later = keys_where p rest in if p key then key ∷ later else later

-- The keys that are no longer answered; a mode's keys are exempt where another is answered.
unfoldable pub stopped : ExportHandler → States → States → List String
stopped h before after =
    let exempt = any (has_key after) h.mode_alternating_keys in
    keys_where
      (λ key. not (has_key after key) && not (exempt && any (str_eq key) h.mode_alternating_keys))
      before

pub record StateDiff : Type 0 where
  pub changed_states : States
  pub stopped_keys : List String

unfoldable pub diff_from : ExportHandler → States → States → StateDiff
diff_from h pushed after = record {
  changed_states = changed h pushed after;
  stopped_keys = stopped h pushed after;
}

-- `snapshot.update(states)`
unfoldable pub updated : States → States → States
updated snapshot [] = snapshot
updated snapshot ((key, v) ∷ states) = updated (Table.insert key v snapshot) states

-- `snapshot.pop(key, None)` for each of the keys that a push did not carry.
unfoldable pub evicted : List String → States → States → States
evicted [] states snapshot = snapshot
evicted (key ∷ keys) states snapshot =
    let further = evicted keys states snapshot in
    if has_key states key then further else Table.remove key further

-- `_note_pushed`
unfoldable pub note_pushed : ExportHandler → States → States → States
note_pushed h states snapshot =
    let merged = updated snapshot states in
    if any (has_key states) h.mode_alternating_keys
    then evicted h.mode_alternating_keys states merged
    else merged

-- The snapshot of one device, and the states that the node holds for it.
pub record Export : Type 0 where
  pub snapshot : States
  pub node : States

-- What the node holds after a `set_state` or a spec, which changes the keys that it carries. The flag
-- says that it is delivered: a push is scheduled and forgotten, and dropped where the socket is gone.
unfoldable pub received : Bool → States → States → States
received delivered node states = if delivered then updated node states else node

-- `_push_state`: the snapshot takes a push when it is scheduled.
unfoldable pub pushed : ExportHandler → Bool → States → Export → Export
pushed h delivered states x = record {
  snapshot = note_pushed h states x.snapshot;
  node = received delivered x.node states;
}

-- Nothing is sent where nothing changed.
unfoldable pub sent : ExportHandler → Bool → States → Export → Export
sent h delivered [] x = x
sent h delivered (s ∷ states) x = pushed h delivered (s ∷ states) x

-- `device_updated`, for a device whose endpoint is live.
unfoldable pub device_updated : ExportHandler → Bool → States → Export → Export
device_updated h delivered after x =
    sent h delivered (diff_from h x.snapshot after).changed_states x

-- What happens to an export: a spec is sent (`_spec_for`), a reading arrives, a command's own values
-- or a correction are pushed, each with whether the node is told; the endpoint is removed.
pub data Event : Type 0 where
  specified reads sends : Bool → States → Event
  removed : Event

unfoldable pub step : ExportHandler → Event → Export → Export
step h (specified delivered states) x = record {
  snapshot = states;
  node = received delivered x.node states;
}
step h (reads delivered after) x = device_updated h delivered after x
step h (sends delivered states) x = pushed h delivered states x
step h removed x = record { snapshot = []; node = [] }

unfoldable pub run : ExportHandler → List Event → Export → Export
run h [] x = x
run h (e ∷ events) x = run h events (step h e x)
