-- ===== src/Transport.antt =====
-- ws_json_client.py: the client that both peers share. Its requests, the frames that answer them,
-- the notes that name a late answer, and disconnection. The frame vocabulary is that of protocol.py
-- and bridge_protocol.py, which is one. A request's future is named by its message id, which the
-- counter of the protocol never gives twice.
pub mod Steps
pub mod Loop
pub mod Examples
use indigo_matter.Prelude.{
  ℕ, ◌+◌, String, Bool, true, false, ◌&&◌, not, Option, none, some, List, [], ◌∷◌, ltb, length,
  is_some, if◌then◌else◌,
}
use indigo_matter.Python.{Json, Fields, null, str, list, dict}
use indigo_matter.Python.Dict
use indigo_matter.Python.Table
use indigo_matter.Python.Table.{Table, text_key}

abbrev pub send_context_limit : ℕ
send_context_limit = 256

-- What a caller's future holds.
pub data Future : Type 0 where
  waiting cancelled disconnected : Future
  resolved : Json → Future
  refused : Json → Json → Future  -- the protocol's error, before `str` of its details

abbrev pub is_waiting : Future → Bool
is_waiting waiting = true
is_waiting _ = false

-- `LateResponse`: for `on_late_response`, where the client has one.
pub record LateResponse (C : Type 0) : Type 0 where
  pub message_id : Json
  pub context : Option C
  pub outcome : Future

pub record Client (C : Type 0) : Type 0 where
  pub pending : Table String (Unit {0})
  pub futures : Table String Future
  pub send_context : Table String C
  pub connected : Bool
  pub closing : Bool
  pub last_event_ts : Option ℕ
  pub events : List Fields  -- handed to `_handle_event`, the latest first
  pub late : List (LateResponse C)  -- handed to `on_late_response`, the latest first
  pub drops : ℕ  -- calls of `on_disconnect`

unfoldable pub is_event : Fields → Bool
is_event frame = Dict.has "event" frame

unfoldable pub is_response : Fields → Bool
is_response frame = not (Dict.has "event" frame) && Dict.has "message_id" frame

-- `error_of`, and `parse_result` where there is none: what the answer settles a future with.
unfoldable pub outcome_of : Fields → Future
outcome_of frame =
    if Dict.has "error_code" frame
    then refused (Dict.get "error_code" frame) (Dict.get "details" frame)
    else resolved (Dict.get "result" frame)

-- `fut.set_result` and `fut.set_exception`, guarded by `fut.done()`.
unfoldable pub settle : String → Future → Table String Future → Table String Future
settle mid outcome futures = elim (Table.lookup mid futures) [
  | some waiting ↦ Table.insert mid outcome futures
  | _ ↦ futures
]

-- Every future that is registered and not done raises.
unfoldable pub fail_all : Table String (Unit {0}) → Table String Future → Table String Future
fail_all [] futures = futures
fail_all ((mid, _) ∷ rest) futures = fail_all rest (settle mid disconnected futures)

-- `__init__`, as far as the requests go.
abbrev pub new_client : {C : Type 0} → Client C
new_client = record {
  pending = [];
  futures = [];
  send_context = [];
  connected = false;
  closing = false;
  last_event_ts = none;
  events = [];
  late = [];
  drops = 0;
}

module _ {C : Type 0} where
  -- The `while` of `_remember_send_context`, which drops the oldest notes.
  unfoldable pub trimmed : Table String C → Table String C
  trimmed [] = []
  trimmed (note ∷ rest) =
      let shorter = trimmed rest in
      if ltb send_context_limit (length (note ∷ rest)) then shorter else note ∷ rest

  unfoldable pub remember_send_context : String → C → Table String C → Table String C
  remember_send_context mid context notes = trimmed (Table.insert mid context notes)

  -- `_log_unmatched`, for an id that is a text.
  unfoldable pub unmatched : String → Fields → Client C → Client C
  unmatched mid frame c = record c {
    send_context = Table.remove mid c.send_context;
    late =
        record {
          message_id = str mid;
          context = Table.lookup mid c.send_context;
          outcome = outcome_of frame;
        }
        ∷ c.late;
  }

  -- The rest of `_dispatch`, once the frame is a response with this id.
  unfoldable pub answer : Json → Fields → Client C → Client C
  answer (str mid) frame c = elim (Table.lookup mid c.pending) [
    | none ↦ unmatched mid frame c
    | some _ ↦ record c {
      send_context = Table.remove mid c.send_context;
      futures = settle mid (outcome_of frame) c.futures;
    }
  ]
  answer (list _) frame c = c  -- TypeError: the frame is dropped
  answer (dict _) frame c = c
  answer other frame c = record c {
    late = record { message_id = other; context = none; outcome = outcome_of frame } ∷ c.late;
  }

  -- `_dispatch`
  unfoldable pub dispatch : ℕ → Fields → Client C → Client C
  dispatch now frame c =
      if is_event frame
      then record c { last_event_ts = some now; events = frame ∷ c.events }
      else if is_response frame
      then answer (Dict.get "message_id" frame) frame c
      else c

  -- `_handle_frame`: a frame that is no object is dropped.
  unfoldable pub handle_frame : ℕ → Json → Client C → Client C
  handle_frame now (dict frame) c = dispatch now frame c
  handle_frame now _ c = c

  abbrev noted : Option C → String → Table String C → Table String C
  noted none mid notes = notes
  noted (some context) mid notes = remember_send_context mid context notes

  -- `_request_frame` up to its wait; `none` is its ConnectionError.
  unfoldable pub begin_request : String → Option C → Client C → Option (Client C)
  begin_request mid context c =
      if c.connected
      then some (record c {
        send_context = noted context mid c.send_context;
        futures = Table.insert mid waiting c.futures;
        pending = Table.insert mid tt c.pending;
      })
      else none

  -- The end of `_request_frame`: `wait_for` cancels a future that timed out, and the id is
  -- unregistered on every path.
  unfoldable pub end_request : String → Client C → Client C
  end_request mid c = record c {
    futures = settle mid cancelled c.futures;
    pending = Table.remove mid c.pending;
  }

  unfoldable pub mark_disconnected : Client C → Client C
  mark_disconnected c = record c {
    connected = false;
    futures = fail_all c.pending c.futures;
    pending = [];
    send_context = [];
    drops = if c.connected && not c.closing then c.drops + 1 else c.drops;
  }

  unfoldable pub mark_connected : Client C → Client C
  mark_connected c = record c { connected = true }

  unfoldable pub close : Client C → Client C
  close c = mark_disconnected (record c { closing = true })
