-- ===== src/Transport/Steps/Settled.antt =====
-- ws_json_client.py: requests wait only while they are registered, and are settled once.
use indigo_matter.Prelude.{
  ℕ, String, Bool, true, false, Option, none, some, [], ◌∷◌, ◌≡◌, refl, ap, ◌∙◌, arith, str_eq,
  eq_iff, is_some, ◌&&◌, if◌then◌else◌,
}
use indigo_matter.Python.{Json, Fields, str}
use indigo_matter.Python.Dict
use indigo_matter.Python.Table
use indigo_matter.Python.Table.{
  Table, text_key, IsUnique, lookup-insert, lookup-remove, insert-IsUnique, remove-IsUnique,
}
use indigo_matter.Transport.{
  Client, Future, waiting, cancelled, disconnected, is_waiting, settle, fail_all, answer, unmatched,
  dispatch, begin_request, end_request, handle_frame, mark_connected, mark_disconnected, close,
  outcome_of,
}
use indigo_matter.Transport.Steps.{
  answer_cases, handle_frame_cases, Step, asks, remembers, hears, ends, connects, loses, closes,
  Reach, here, next,
}

abbrev pub awaits : Option Future → Bool
awaits (some waiting) = true
awaits _ = false

settle-cases :
    (mid : String) (outcome : Future) (futures : Table String Future)
    → settle mid outcome futures
      ≡ (if awaits (Table.lookup mid futures) then Table.insert mid outcome futures else futures)
unfolding settle
settle-cases mid outcome futures = ground arith

pub lookup-settle :
    (mid j : String) (outcome : Future) (futures : Table String Future)
    → Table.lookup j (settle mid outcome futures) ≡ (
        if awaits (Table.lookup mid futures)
        then if str_eq mid j then some outcome else Table.lookup j futures
        else Table.lookup j futures)
lookup-settle mid j outcome futures =
    ground (arith, settle-cases mid outcome futures, lookup-insert mid j outcome futures)

pub same_lookup :
    {V : Type 0} (i j : String) (t : Table String V)
    → str_eq i j ≡ true
    → Table.lookup i t ≡ Table.lookup j t
same_lookup i j t e = ap (λ (k : String). Table.lookup k t) ((eq_iff i j).0 e)

pub lookup-fail_all :
    (j : String) (pending : Table String (Unit {0})) (futures : Table String Future)
    → Table.lookup j (fail_all pending futures) ≡ (
        if is_some (Table.lookup j pending) && awaits (Table.lookup j futures)
        then some disconnected
        else Table.lookup j futures)
unfolding fail_all Table.lookup
lookup-fail_all j [] futures = refl
lookup-fail_all j ((mid, u) ∷ rest) futures = ground (
  arith,
  lookup-fail_all j rest (settle mid disconnected futures),
  lookup-settle mid j disconnected futures,
  same_lookup mid j futures,
)

-- A future that is done keeps what it holds.
abbrev pub IsKeptBy : Table String Future → Table String Future → Type 0
IsKeptBy before after =
    (m : String)
    → is_some (Table.lookup m before) ≡ true
    → awaits (Table.lookup m before) ≡ false
    → Table.lookup m after ≡ Table.lookup m before

settle-IsKeptBy :
    (mid : String) (outcome : Future) (futures : Table String Future)
    → IsKeptBy futures (settle mid outcome futures)
settle-IsKeptBy mid outcome futures m there settled =
    ground (arith, lookup-settle mid m outcome futures, same_lookup mid m futures)

fail_all-IsKeptBy :
    (pending : Table String (Unit {0})) (futures : Table String Future)
    → IsKeptBy futures (fail_all pending futures)
fail_all-IsKeptBy pending futures m there settled =
    ground (arith, lookup-fail_all m pending futures)

module _ {C : Type 0} where
  matched-IsKeptBy :
      (mid : String) (frame : Fields) (c : Client C)
      → IsKeptBy c.futures (answer (str mid) frame c).futures
  unfolding answer unmatched
  matched-IsKeptBy mid frame c m there settled =
      ground (arith, settle-IsKeptBy mid (outcome_of frame) c.futures m there settled)

  answer-IsKeptBy :
      (mid : Json) (frame : Fields) (c : Client C) → IsKeptBy c.futures (answer mid frame c).futures
  answer-IsKeptBy mid frame c =
      answer_cases (λ d. IsKeptBy c.futures d.futures) c (λ m there settled. refl) frame
        (λ l m there settled. refl) (λ m. matched-IsKeptBy m frame c) mid

  dispatch-IsKeptBy :
      (now : ℕ) (frame : Fields) (c : Client C) → IsKeptBy c.futures (dispatch now frame c).futures
  unfolding dispatch
  dispatch-IsKeptBy now frame c m there settled =
      ground (arith, answer-IsKeptBy (Dict.get "message_id" frame) frame c m there settled)

  handle_frame-IsKeptBy :
      (now : ℕ) (frame : Json) (c : Client C)
      → IsKeptBy c.futures (handle_frame now frame c).futures
  handle_frame-IsKeptBy now frame c =
      handle_frame_cases (λ d. IsKeptBy c.futures d.futures) c (λ m there settled. refl) now
        (λ d. dispatch-IsKeptBy now d c) frame

  begin_request-IsKeptBy :
      (mid : String) (context : Option C) (c d : Client C)
      → Table.lookup mid c.futures ≡ none
      → begin_request mid context c ≡ some d
      → IsKeptBy c.futures d.futures
  unfolding begin_request
  begin_request-IsKeptBy mid context c d fresh e m there settled =
      ground (arith, lookup-insert mid m waiting c.futures, same_lookup mid m c.futures)

  Step-IsKeptBy : {c d : Client C} → Step c d → IsKeptBy c.futures d.futures
  unfolding end_request mark_connected mark_disconnected close
  Step-IsKeptBy (asks {c} {d} mid context fresh e) m there settled =
      begin_request-IsKeptBy mid context c d fresh e m there settled
  Step-IsKeptBy (remembers mid context) m there settled = refl
  Step-IsKeptBy (hears {c} now frame) m there settled =
      handle_frame-IsKeptBy now frame c m there settled
  Step-IsKeptBy (ends {c} mid) m there settled =
      settle-IsKeptBy mid cancelled c.futures m there settled
  Step-IsKeptBy connects m there settled = refl
  Step-IsKeptBy (loses {c}) m there settled = fail_all-IsKeptBy c.pending c.futures m there settled
  Step-IsKeptBy (closes {c}) m there settled = fail_all-IsKeptBy c.pending c.futures m there settled

  Reach-IsKeptBy : {c d : Client C} → Reach c d → IsKeptBy c.futures d.futures
  Reach-IsKeptBy here m there settled = refl
  Reach-IsKeptBy (next {d} {e} r s) m there settled =
      let kept = Reach-IsKeptBy r m there settled in
      Step-IsKeptBy s m (ground (arith, kept)) (ground (arith, kept)) ∙ kept

  -- A request is settled once: in every history, a request that holds its answer, its error, its
  -- cancellation or its disconnection keeps it, whatever arrives later.
  pub reach_settled :
      (c d : Client C) (m : String) (held : Future)
      → Reach c d
      → Table.lookup m c.futures ≡ some held
      → is_waiting held ≡ false
      → Table.lookup m d.futures ≡ some held
  reach_settled c d m held r e settled =
      Reach-IsKeptBy r m (rw e refl) (ground (arith, e, settled)) ∙ e
