-- ===== src/Transport/Steps/Registered.antt =====
-- ws_json_client.py: a request waits only while it is registered, so no request outlives its
-- connection.
use indigo_matter.Prelude.{
  ℕ, String, true, false, Option, some, ◌≡◌, refl, arith, inl, inr, str_eq, Bool-cases,
  Option-cases, is_some, ◌&&◌, not, if◌then◌else◌,
}
use indigo_matter.Python.{Json, Fields, str}
use indigo_matter.Python.Dict
use indigo_matter.Python.Table
use indigo_matter.Python.Table.{
  Table, text_key, IsUnique, lookup-insert, lookup-remove, insert-IsUnique, remove-IsUnique,
}
use indigo_matter.Transport.{
  Client, new_client, Future, waiting, cancelled, disconnected, settle, is_event, is_response,
  answer, unmatched, dispatch, begin_request, end_request, handle_frame, mark_connected,
  mark_disconnected, close, outcome_of,
}
use indigo_matter.Transport.Steps.{
  answer_cases, handle_frame_cases, Step, asks, remembers, hears, ends, connects, loses, closes,
  Reach, here, next,
}
use indigo_matter.Transport.Steps.Settled.{awaits, lookup-settle, lookup-fail_all, same_lookup}

-- What is waited for is registered, under one key.
pub record IsRegistered {C : Type 0} (c : Client C) : Type 0 where
  pub waits :
      (m : String)
      → awaits (Table.lookup m c.futures) ≡ true
      → is_some (Table.lookup m c.pending) ≡ true
  pub unique : IsUnique c.pending

-- Settling a request with an outcome leaves no other one waiting.
settle_waits :
    (mid m : String) (outcome : Future) (futures : Table String Future)
    → awaits (some outcome) ≡ false
    → awaits (Table.lookup m (settle mid outcome futures)) ≡ true
    → (awaits (Table.lookup m futures) && not (str_eq mid m)) ≡ true
settle_waits mid m outcome futures over h =
    ground (arith, lookup-settle mid m outcome futures, same_lookup mid m futures)

outcome_of_over : (frame : Fields) → awaits (some (outcome_of frame)) ≡ false
unfolding outcome_of
outcome_of_over frame = ground arith

module _ {C : Type 0} where
  matched-IsRegistered :
      (mid : String) (frame : Fields) (c : Client C)
      → IsRegistered c
      → IsRegistered (answer (str mid) frame c)
  unfolding answer unmatched
  matched-IsRegistered mid frame c k = elim (Option-cases (Table.lookup mid c.pending)) [
    | inl e ↦ rw (e, answer) (record { waits = k.waits; unique = k.unique })
    | inr (u, e) ↦
        rw (e, answer)
          (record {
            waits = λ m h. k.waits m (
                ground (
                  arith,
                  settle_waits mid m (outcome_of frame) c.futures (outcome_of_over frame) h,
                ));
            unique = k.unique;
          })
  ]

  answer-IsRegistered :
      (mid : Json) (frame : Fields) (c : Client C)
      → IsRegistered c
      → IsRegistered (answer mid frame c)
  answer-IsRegistered mid frame c k =
      answer_cases IsRegistered c k frame (λ l. record { waits = k.waits; unique = k.unique })
        (λ m. matched-IsRegistered m frame c k) mid

  dispatch-IsRegistered :
      (now : ℕ) (frame : Fields) (c : Client C)
      → IsRegistered c
      → IsRegistered (dispatch now frame c)
  unfolding dispatch
  dispatch-IsRegistered now frame c k = elim (Bool-cases (is_event frame)) [
    | inl e ↦ rw e (record { waits = k.waits; unique = k.unique })
    | inr e ↦ elim (Bool-cases (is_response frame)) [
      | inl f ↦ rw (e, f) (answer-IsRegistered (Dict.get "message_id" frame) frame c k)
      | inr f ↦ rw (e, f) k
    ]
  ]

  handle_frame-IsRegistered :
      (now : ℕ) (frame : Json) (c : Client C)
      → IsRegistered c
      → IsRegistered (handle_frame now frame c)
  handle_frame-IsRegistered now frame c k =
      handle_frame_cases IsRegistered c k now (λ d. dispatch-IsRegistered now d c k) frame

  begin_request-IsRegistered :
      (mid : String) (context : Option C) (c d : Client C)
      → begin_request mid context c ≡ some d
      → IsRegistered c
      → IsRegistered d
  unfolding begin_request
  begin_request-IsRegistered mid context c d e k = record {
    waits = λ m h.
        ground (
          arith,
          lookup-insert mid m waiting c.futures,
          lookup-insert mid m tt c.pending,
          k.waits m,
        );
    unique = ground (arith, insert-IsUnique mid tt c.pending k.unique);
  }

  end_request-IsRegistered :
      (mid : String) (c : Client C) → IsRegistered c → IsRegistered (end_request mid c)
  unfolding end_request
  end_request-IsRegistered mid c k = record {
    waits = λ m h. ground (
      arith,
      settle_waits mid m cancelled c.futures refl h,
      lookup-remove mid m c.pending k.unique,
      k.waits m,
    );
    unique = remove-IsUnique mid c.pending k.unique;
  }

  -- No request waits on a connection that is lost.
  disconnected_waits :
      (c : Client C) (m : String)
      → IsRegistered c
      → awaits (Table.lookup m (mark_disconnected c).futures) ≡ false
  unfolding mark_disconnected
  disconnected_waits c m k = ground (arith, lookup-fail_all m c.pending c.futures, k.waits m)

  mark_disconnected-IsRegistered :
      (c : Client C) → IsRegistered c → IsRegistered (mark_disconnected c)
  unfolding mark_disconnected
  mark_disconnected-IsRegistered c k = record {
    waits = λ m h. absurd (ground (arith, disconnected_waits c m k));
    unique = tt;
  }

  Step-IsRegistered : {c d : Client C} → Step c d → IsRegistered c → IsRegistered d
  unfolding mark_connected close
  Step-IsRegistered (asks {c} {d} mid context fresh e) k =
      begin_request-IsRegistered mid context c d e k
  Step-IsRegistered (remembers mid context) k = record { waits = k.waits; unique = k.unique }
  Step-IsRegistered (hears {c} now frame) k = handle_frame-IsRegistered now frame c k
  Step-IsRegistered (ends {c} mid) k = end_request-IsRegistered mid c k
  Step-IsRegistered connects k = record { waits = k.waits; unique = k.unique }
  Step-IsRegistered (loses {c}) k = mark_disconnected-IsRegistered c k
  Step-IsRegistered (closes {c}) k =
      mark_disconnected-IsRegistered (record c { closing = true })
        (record { waits = k.waits; unique = k.unique })

  pub Reach-IsRegistered : {c d : Client C} → Reach c d → IsRegistered c → IsRegistered d
  Reach-IsRegistered here k = k
  Reach-IsRegistered (next r s) k = Step-IsRegistered s (Reach-IsRegistered r k)

  new_client-IsRegistered : IsRegistered (new_client {C = C})
  unfolding Table.lookup
  new_client-IsRegistered = record { waits = λ m h. absurd (ground arith); unique = tt }

  -- No request outlives its connection: whatever a new client has been through, a disconnection fails
  -- each request that still waits, and leaves each other one as it is.
  pub reach-mark_disconnected :
      (c : Client C) (m : String)
      → Reach new_client c
      → Table.lookup m (mark_disconnected c).futures ≡ (
          if awaits (Table.lookup m c.futures) then some disconnected else Table.lookup m c.futures)
  unfolding mark_disconnected
  reach-mark_disconnected c m r =
      let k = Reach-IsRegistered r new_client-IsRegistered in
      ground (arith, lookup-fail_all m c.pending c.futures, k.waits m)
