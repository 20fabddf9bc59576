-- ===== src/Attach.antt =====
-- bridge_client.py and export_bridge.py: the attach of the desired endpoints, its opt-in for a removal
-- of all of them, and the debt of an un-export that the node has not taken. The guard of the node is
-- that of bridge-node/src/reconcile.ts.
pub mod Debt
pub mod Halts
pub mod Examples
use indigo_matter.Prelude.{
  ℕ, zero, ◌+◌, ◌-◌, String, Bool, true, false, ◌&&◌, ◌||◌, not, Option, none, some, List, [], ◌∷◌,
  ℤ, pos, negsuc, pos_part, eq_ℤ, leb_ℤ, ltb, leb, ◌==◌, str_eq, any, is_some, length,
  if◌then◌else◌,
}
use indigo_matter.Python.{Json, Result, ok, err, value_error, type_error, int, null, int_of, truthy}
use indigo_matter.Python.Table
use indigo_matter.Python.Table.{Table, text_key}

-- An endpoint's published identity and the device that drives it.
abbrev pub Spec : Type 0
Spec = String × ℤ

-- The endpoints that the node serves.
abbrev pub Live : Type 0
Live = Table String ℤ

abbrev pub err_mass_removal_refused : String
err_mass_removal_refused = "mass_removal_refused"

abbrev pub err_version_mismatch : String
err_version_mismatch = "version_mismatch"

abbrev pub err_endpoint_map_invalid : String
err_endpoint_map_invalid = "endpoint_map_invalid"

unfoldable pub publishes : List Spec → String → Bool
publishes specs key = any (λ s. str_eq s.0 key) specs

-- `createdDeviceIds.has(…)`: some spec that is not live is driven by the device.
unfoldable pub creates_for : Live → List Spec → ℤ → Bool
creates_for live specs device =
    any (λ s. not (is_some (Table.lookup s.0 live)) && eq_ℤ s.1 device) specs

-- `survivors`: the live endpoints that are desired, or whose device is given another one.
unfoldable pub survivors : Live → Live → List Spec → ℕ
survivors all [] specs = 0
survivors all ((key, device) ∷ live) specs =
    (if publishes specs key || creates_for all specs device then 1 else 0)
    + survivors all live specs

-- The guard of `planReconcile`.
unfoldable pub is_mass_removal : Live → List Spec → Bool → Bool
is_mass_removal live specs replace_all =
    ltb 0 (length live) && survivors live live specs == 0 && not replace_all

-- What an attach is answered with, or that no answer comes.
pub data Answer : Type 0 where
  accepted broken : Answer
  refused : String → Answer

-- The node answers as it likes where its guard does not refuse.
unfoldable pub answered : Live → List Spec → Bool → Answer → Answer
answered live specs replace_all otherwise =
    if is_mass_removal live specs replace_all then refused err_mass_removal_refused else otherwise

-- `ExportBridge._pending_replace_all`, from the pref.
unfoldable pub pending_replace_all : Json → Result ℤ
pending_replace_all raw =
    if truthy raw
    then elim (int_of raw) [
      | ok z ↦ ok z
      | err value_error ↦ ok (pos 0)
      | err type_error ↦ ok (pos 0)
      | err e ↦ err e
    ]
    else ok (pos 0)

-- `BridgeClient._owed_removals`; a provider that raises owes nothing.
unfoldable pub owed_removals : Json → ℕ
owed_removals raw = elim (pending_replace_all raw) [ ok z ↦ pos_part z | err _ ↦ 0 ]

-- `_record_pending_replace_all` takes the larger debt, and never writes 0. The flag says that the
-- prefs take the value and keep it; a write that raises is logged, and the debt stays what it was.
unfoldable pub record_pending_replace_all : Bool → ℕ → Json → Json
record_pending_replace_all recorded removing raw = elim (pending_replace_all raw) [
  | err _ ↦ raw
  | ok z ↦
      let owed = if leb (pos_part z) removing then removing else pos_part z in
      if owed == 0 || not recorded then raw else int (pos owed)
]

abbrev pub is_none : List Spec → Bool
is_none [] = true
is_none (_ ∷ _) = false

-- `BridgeClient._replace_all`
unfoldable pub replace_all : ℕ → List Spec → ℕ → Bool
replace_all owed specs declared = if ltb 0 owed then true else is_none specs && ltb 0 declared

pub data Ending : Type 0 where
  attached : Bool → Ending  -- whether the attach carried the intent
  halted failed : String → Ending
  recovering disconnected : Ending

-- `_handle_attach_refused`
unfoldable pub handle_attach_refused : String → Ending
handle_attach_refused code =
    if str_eq code err_version_mismatch || str_eq code err_mass_removal_refused
    then halted code
    else if str_eq code err_endpoint_map_invalid
    then recovering
    else failed code

-- What a connection meets: the node's protocol version, whether the first read of the debt raised,
-- the desired specs at each attach, the declared count, the live endpoints, and the node's answers
-- beyond its guard. Meanwhile an un-export may record its debt, or fail to.
pub record Meeting : Type 0 where
  pub same_version : Bool
  pub glitch : Bool
  pub specs : List Spec
  pub specs_again : List Spec
  pub declared : ℕ
  pub live : Live
  pub first_answer : Answer
  pub second_answer : Answer
  pub meanwhile : ℕ
  pub recorded : Bool

unfoldable pub ending_of : Bool → Answer → Ending
ending_of carried accepted = attached carried
ending_of carried broken = disconnected
ending_of carried (refused code) = handle_attach_refused code

-- `_retry_with_intent`, after a refusal of an attach without the intent.
unfoldable pub retried : Meeting → Json → Ending
retried m raw =
    if ltb 0 (owed_removals raw)
    then ending_of true (answered m.live m.specs_again true m.second_answer)
    else handle_attach_refused err_mass_removal_refused

-- The attach of `_handshake`, with the debt as it is read again.
unfoldable pub after_attach : Meeting → Bool → Json → Answer → Ending
after_attach m true raw answer = ending_of true answer
after_attach m false raw (refused code) =
    if str_eq code err_mass_removal_refused then retried m raw else handle_attach_refused code
after_attach m false raw accepted = attached false
after_attach m false raw broken = disconnected

-- `_handshake`
unfoldable pub handshake : Meeting → Json → Ending
handshake m raw =
    let owed = if m.glitch then 0 else owed_removals raw in
    let carried = replace_all owed m.specs m.declared in
    let again = record_pending_replace_all m.recorded m.meanwhile raw in
    if m.same_version
    then after_attach m carried again (answered m.live m.specs carried m.first_answer)
    else halted "version_skew"

abbrev pub carries : Ending → Bool
carries (attached carried) = carried
carries _ = false

-- `_on_attached`, as far as the debt goes, with `_clear_pending_replace_all`.
unfoldable pub on_attached : Bool → Json → Json
on_attached carried raw = if carried && ltb 0 (owed_removals raw) then null else raw

-- What bears on the debt: `_replace_all_then_stop` on a live client, by the write of its debt and the answer of its attach; a
-- connection; the re-attach after `rebuild_endpoint_map`; `reattach`, which carries no intent.
pub data Event : Type 0 where
  empties : ℕ → Bool → Answer → Event
  connects : Meeting → Event
  rebuilds : List Spec → ℕ → Answer → Event
  reattaches : Answer → Event

abbrev pub is_accepted : Answer → Bool
is_accepted accepted = true
is_accepted _ = false

-- Whether an attach with the intent was accepted.
unfoldable pub discharges : Event → Json → Bool
discharges (empties removing recorded answer) raw = is_accepted answer
discharges (connects m) raw = carries (handshake m raw)
discharges (rebuilds specs declared answer) raw =
    is_accepted answer && replace_all (owed_removals raw) specs declared
discharges (reattaches answer) raw = false

unfoldable pub step : Event → Json → Json
step (empties removing recorded answer) raw =
    if is_accepted answer then null else record_pending_replace_all recorded removing raw
step (connects m) raw =
    on_attached (carries (handshake m raw)) (record_pending_replace_all m.recorded m.meanwhile raw)
step (rebuilds specs declared answer) raw =
    on_attached (is_accepted answer && replace_all (owed_removals raw) specs declared) raw
step (reattaches answer) raw = on_attached false raw

unfoldable pub run : List Event → Json → Json
run [] raw = raw
run (e ∷ events) raw = run events (step e raw)
