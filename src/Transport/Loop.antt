-- ===== src/Transport/Loop.antt =====
-- ws_json_client.py: the run loop, its backoff, its halt, and the diagnostic of a failure streak.
-- What a round of the loop meets, the peer, the socket, other tasks and threads, is a `Round`.
pub mod Streak
use indigo_matter.Prelude.{
  ℕ, ◌+◌, ◌^◌, String, Bool, true, false, ◌&&◌, ◌||◌, not, Option, none, some, List, [], ◌∷◌, ltb,
  leb, if◌then◌else◌,
}

abbrev pub max_backoff : ℕ
max_backoff = 30

-- How a round ends: the listening ends, or an exception is raised, by its `except` clause.
pub data Ending : Type 0 where
  listened cancelled : Ending
  client_halted : String → Ending
  handshake_failed timed_out connection_lost unexpected : Ending

pub record Round : Type 0 where
  pub connects : Bool  -- `_connect_once` returns
  pub ending : Ending
  pub rearms : Bool  -- the failure hook, where it is called, re-arms the diagnostic
  pub rearmed : Bool  -- another thread re-arms it by its end
  pub closed : Bool  -- `close()` was called by its end
  pub woken : Bool  -- `retry_now()` cuts the wait short

pub record Loop : Type 0 where
  pub attempt : ℕ
  pub diag_fired : Bool
  pub halted : Bool
  pub halted_reason : Option String
  pub closing : Bool
  pub finished : Bool
  pub delays : List ℕ  -- the latest first
  pub reports : List ℕ  -- the calls of `on_repeated_failure`, the latest first

-- `run()` of a new client.
abbrev pub begun : Loop
begun = record {
  attempt = 0;
  diag_fired = false;
  halted = false;
  halted_reason = none;
  closing = false;
  finished = false;
  delays = [];
  reports = [];
}

-- `_maybe_report_repeated_failure`, for a client with the hook; the flag says that the hook calls
-- `rearm_failure_diagnostic`, as the supervisors do where they have to report again.
unfoldable pub maybe_report_repeated_failure : Bool → Loop → Loop
maybe_report_repeated_failure rearms l =
    if l.diag_fired || ltb l.attempt 1
    then l
    else record l { diag_fired = not rearms; reports = (l.attempt + 1) ∷ l.reports }

abbrev reason_of : String → Option String
reason_of String.[] = none
reason_of s = some s

-- The `except` clauses; `client_halted` is the halt.
unfoldable pub caught : Ending → Bool → Loop → Loop
caught listened rearms l = l
caught cancelled rearms l = record l { finished = true }
caught (client_halted reason) rearms l = record l {
  halted = true;
  halted_reason = reason_of reason;
}
caught handshake_failed rearms l = maybe_report_repeated_failure rearms l
caught timed_out rearms l = maybe_report_repeated_failure rearms l
caught connection_lost rearms l = maybe_report_repeated_failure rearms l
caught unexpected rearms l = maybe_report_repeated_failure rearms l

abbrev pub min : ℕ → ℕ → ℕ
min a b = if leb a b then a else b

-- The backoff; a wait that is cut short starts the count, and the diagnostic, anew.
unfoldable pub backed_off : Bool → Loop → Loop
backed_off woken l = record l {
  attempt = if woken then 0 else l.attempt + 1;
  diag_fired = if woken then false else l.diag_fired;
  delays = min (2 ^ l.attempt) max_backoff ∷ l.delays;
}

-- What follows the `except` clauses.
unfoldable pub continued : Bool → Loop → Loop
continued woken l =
    if l.finished
    then l
    else if l.closing || l.halted
    then record l { finished = true }
    else backed_off woken l

-- The start of a round that connects.
unfoldable pub connected_once : Bool → Loop → Loop
connected_once true l = record l { attempt = 0; diag_fired = false }
connected_once false l = l

-- `rearm_failure_diagnostic`
unfoldable pub rearm_failure_diagnostic : Loop → Loop
rearm_failure_diagnostic l = record l { diag_fired = false }

-- What another thread does by the end of a round.
unfoldable pub rearmed_by : Bool → Loop → Loop
rearmed_by true l = rearm_failure_diagnostic l
rearmed_by false l = l

unfoldable pub round : Round → Loop → Loop
round r l =
    let met = rearmed_by r.rearmed (caught r.ending r.rearms (connected_once r.connects l)) in
    continued r.woken (record met { closing = l.closing || r.closed })

-- `_run_loop`
unfoldable pub run_loop : List Round → Loop → Loop
run_loop [] l = l
run_loop (r ∷ rest) l =
    let further = run_loop rest (round r l) in if l.finished || l.closing then l else further

-- `resume()` is refused while the loop runs.
unfoldable pub resume : Loop → Loop
resume l = if l.finished then record l { halted = false; halted_reason = none } else l

-- Whether `retry_now()` hands the wake-up to the loop.
unfoldable pub retry_now : Loop → Bool
retry_now l = not (l.finished || l.closing || l.halted)
