-- ===== src/Transport/Examples.antt =====
-- A client with requests, and the theorems at it.
use indigo_matter.Prelude.{
  List, inl, ◌≤◌, String, true, false, some, [], ◌∷◌, ◌++◌, ◌≡◌, refl, pos, length, if◌then◌else◌,
}
use indigo_matter.Python.{Json, end, field, int, str, dict}
use indigo_matter.Python.Dict
use indigo_matter.Python.Table
use indigo_matter.Python.Table.{Table, text_key}
use indigo_matter.Transport.{
  Client, waiting, disconnected, resolved, new_client, begin_request, handle_frame, mark_connected,
  mark_disconnected, settle, dispatch, is_event, is_response, answer, outcome_of,
  remember_send_context, trimmed, send_context_limit,
}
use indigo_matter.Transport.Steps.{asks, connects, loses, Reach, here, next}
use indigo_matter.Transport.Steps.Settled.{awaits, reach_settled}
use indigo_matter.Transport.Steps.Registered.{reach-mark_disconnected}
use indigo_matter.Transport.Steps.Noted.{reach_noted}
use indigo_matter.Transport.Loop.{
  rearmed_by, rearm_failure_diagnostic, round, connected_once, caught,
  maybe_report_repeated_failure, continued, backed_off, Round, begun, run_loop, min, max_backoff,
  connection_lost,
}
use indigo_matter.Transport.Loop.Streak.{run_loop_streak}

abbrev connected : Client String
connected = record new_client { connected = true }

abbrev asked : Client String
asked = record connected {
  pending = ("1", tt) ∷ [];
  futures = ("1", waiting) ∷ [];
  send_context = ("1", "lamp") ∷ [];
}

connected_reached : Reach new_client connected
unfolding mark_connected
connected_reached = next here (connects {c = new_client})

asked_begun : begin_request "1" (some "lamp") connected ≡ some asked
unfolding begin_request remember_send_context trimmed Table.insert
asked_begun = refl

asked_reached : Reach new_client asked
unfolding Table.lookup
asked_reached = next connected_reached (asks "1" (some "lamp") refl asked_begun)

abbrev reply : Json
reply = dict (field "message_id" (str "1") (field "result" (int (pos 7)) end))

abbrev answered : Client String
answered = record asked { futures = ("1", resolved (int (pos 7))) ∷ []; send_context = [] }

answered_lem : handle_frame 5 reply asked ≡ answered
unfolding handle_frame dispatch is_event Dict.lookup is_response answer Table.lookup settle
    Table.remove Table.insert outcome_of
answered_lem = refl

reach_settled_example :
    Table.lookup "1" (mark_disconnected answered).futures ≡ some (resolved (int (pos 7)))
unfolding Table.lookup
reach_settled_example =
    reach_settled answered (mark_disconnected answered) "1" (resolved (int (pos 7)))
      (next here (loses {c = answered})) refl refl

reach-mark_disconnected_example : Table.lookup "1" (mark_disconnected asked).futures ≡ (
    if awaits (Table.lookup "1" asked.futures)
    then some disconnected
    else Table.lookup "1" asked.futures)
reach-mark_disconnected_example = reach-mark_disconnected asked "1" asked_reached

reach_noted_example :
    (length asked.send_context ≤ send_context_limit)
    × (Table.lookup "2" (remember_send_context "2" "fan" asked.send_context) ≡ some "fan")
reach_noted_example = reach_noted asked "2" "fan" asked_reached

abbrev lost : Round
lost = record {
  connects = false;
  ending = connection_lost;
  rearms = false;
  rearmed = false;
  closed = false;
  woken = false;
}

-- The connection is lost again, after a streak that was reported and re-armed.
abbrev dropped_again : Round
dropped_again = record lost { connects = true }

-- Two failures, of which the second is reported, before another thread re-arms the diagnostic.
abbrev earlier : List Round
earlier = lost ∷ record lost { rearmed = true } ∷ []

run_loop_streak_example :
    ((run_loop (earlier ++ (dropped_again ∷ (lost ∷ lost ∷ []) ++ lost ∷ [])) begun).delays
      ≡ min 8 max_backoff ∷ (run_loop (earlier ++ dropped_again ∷ lost ∷ lost ∷ []) begun).delays)
    × ((run_loop (earlier ++ (dropped_again ∷ (lost ∷ lost ∷ []) ++ lost ∷ [])) begun).reports
        ≡ 2 ∷ (run_loop earlier begun).reports)
unfolding run_loop round connected_once caught maybe_report_repeated_failure continued backed_off
    rearmed_by rearm_failure_diagnostic
run_loop_streak_example =
    run_loop_streak earlier dropped_again (lost ∷ lost ∷ []) lost (refl, refl, refl)
      (refl, refl, refl, refl, refl) (inl refl)
      ((refl, (refl, refl, refl, refl, refl)), ((refl, (refl, refl, refl, refl, refl)), tt))
      (refl, (refl, refl, refl, refl, refl))
