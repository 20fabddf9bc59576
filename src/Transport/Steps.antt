-- ===== src/Transport/Steps.antt =====
-- ws_json_client.py: what can happen to a client, in any order, and the histories of it.
pub mod Settled
pub mod Registered
pub mod Noted
use indigo_matter.Prelude.{ℕ, String, Option, none, some, ◌∷◌, ◌≡◌}
use indigo_matter.Python.{Json, Fields, null, bool, int, float, str, list, dict}
use indigo_matter.Python.Table
use indigo_matter.Python.Table.{text_key}
use indigo_matter.Transport.{
  Client, LateResponse, answer, dispatch, begin_request, end_request, handle_frame, mark_connected,
  remember_send_context, mark_disconnected, close,
}

-- The caller of a request may end its wait at any time: its future is done, or its time is over.
pub data Step {C : Type 0} : Client C → Client C → Type 0 where
  asks :
      {c d : Client C} (mid : String) (context : Option C)
      → Table.lookup mid c.futures ≡ none
      → begin_request mid context c ≡ some d
      → Step c d
  -- `set_state` notes what it sends, and waits for nothing.
  remembers :
      {c : Client C} (mid : String) (context : C)
      → Step c (record c { send_context = remember_send_context mid context c.send_context })
  hears : {c : Client C} (now : ℕ) (frame : Json) → Step c (handle_frame now frame c)
  ends : {c : Client C} (mid : String) → Step c (end_request mid c)
  connects : {c : Client C} → Step c (mark_connected c)
  loses : {c : Client C} → Step c (mark_disconnected c)
  closes : {c : Client C} → Step c (close c)

pub data Reach {C : Type 0} (c : Client C) : Client C → Type 0 where
  here : Reach c c
  next : {d e : Client C} → Reach c d → Step d e → Reach c e

-- What holds of every client that hears a frame, by the frames that change it.
module _ {C : Type 0} (P : Client C → Type 0) (c : Client C) (before : P c) where
  pub answer_cases :
      (frame : Fields)
      → ((l : LateResponse C) → P (record c { late = l ∷ c.late }))
      → ((mid : String) → P (answer (str mid) frame c))
      → (mid : Json) → P (answer mid frame c)
  unfolding answer
  answer_cases frame late matched null = late _
  answer_cases frame late matched (bool b) = late _
  answer_cases frame late matched (int z) = late _
  answer_cases frame late matched (float x) = late _
  answer_cases frame late matched (str mid) = matched mid
  answer_cases frame late matched (list xs) = before
  answer_cases frame late matched (dict d) = before

  pub handle_frame_cases :
      (now : ℕ)
      → ((d : Fields) → P (dispatch now d c))
      → (frame : Json) → P (handle_frame now frame c)
  unfolding handle_frame
  handle_frame_cases now dispatched null = before
  handle_frame_cases now dispatched (bool b) = before
  handle_frame_cases now dispatched (int z) = before
  handle_frame_cases now dispatched (float x) = before
  handle_frame_cases now dispatched (str s) = before
  handle_frame_cases now dispatched (list xs) = before
  handle_frame_cases now dispatched (dict d) = dispatched d
