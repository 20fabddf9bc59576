-- ===== src/Transport/Steps/Noted.antt =====
-- ws_json_client.py: the notes on unanswered requests stay within their limit, the newest kept.
use indigo_matter.Prelude.{
  ℕ, suc, ◌≤◌, ◌<◌, String, true, false, Option, none, some, [], ◌∷◌, ◌≡◌, refl, ap, arith, inl,
  inr, str_eq, Bool-cases, length, leb, leb→le,
}
use indigo_matter.Python.{Json, Fields, str}
use indigo_matter.Python.Dict
use indigo_matter.Python.Table
use indigo_matter.Python.Table.{Table, text_key, IsUnique, lookup-insert, lookup-insert_same}
use indigo_matter.Transport.{
  Client, new_client, send_context_limit, trimmed, remember_send_context, answer, unmatched,
  dispatch, begin_request, end_request, handle_frame, mark_connected, mark_disconnected, close,
}
use indigo_matter.Transport.Steps.{
  answer_cases, handle_frame_cases, Step, asks, remembers, hears, ends, connects, loses, closes,
  Reach, here, next,
}

module _ {C : Type 0} where
  trimmed_bound : (t : Table String C) → length (trimmed t) ≤ send_context_limit
  unfolding trimmed
  trimmed_bound [] = omega arith
  trimmed_bound (note ∷ rest) = ground (arith, trimmed_bound rest)

  length-remove : (k : String) (t : Table String C) → length (Table.remove k t) ≤ length t
  unfolding Table.remove
  length-remove k [] = omega arith
  length-remove k ((j, v) ∷ t) = ground (arith, length-remove k t)

  length-insert :
      (k : String) (v : C) (t : Table String C) → length (Table.insert k v t) ≤ suc (length t)
  unfolding Table.insert
  length-insert k v [] = omega arith
  length-insert k v ((j, w) ∷ t) = ground (arith, length-insert k v t)

  -- A table that is one too long loses its oldest note.
  trimmed_short : (t : Table String C) → length t ≤ send_context_limit → trimmed t ≡ t
  unfolding trimmed
  trimmed_short [] h = refl
  trimmed_short (note ∷ rest) h = ground arith

  trimmed_long :
      (note : String × C) (rest : Table String C)
      → send_context_limit < length (note ∷ rest)
      → trimmed (note ∷ rest) ≡ trimmed rest
  unfolding trimmed
  trimmed_long note rest h = ground arith

  -- The table after the note is made, where the limit holds of it.
  kept_short :
      (mid : String) (context : C) (notes : Table String C)
      → length (Table.insert mid context notes) ≤ send_context_limit
      → Table.lookup mid (trimmed (Table.insert mid context notes)) ≡ some context
  kept_short mid context notes h =
      rw (trimmed_short (Table.insert mid context notes) h) (lookup-insert_same mid context notes)

  insert_other :
      (mid j : String) (context w : C) (rest : Table String C)
      → str_eq j mid ≡ false
      → Table.insert mid context ((j, w) ∷ rest) ≡ (j, w) ∷ Table.insert mid context rest
  unfolding Table.insert
  insert_other mid j context w rest e = rw e refl

  length-insert_same :
      (mid j : String) (context w : C) (rest : Table String C)
      → str_eq j mid ≡ true
      → length (Table.insert mid context ((j, w) ∷ rest)) ≡ suc (length rest)
  unfolding Table.insert
  length-insert_same mid j context w rest e = rw e refl

  -- A note that is made is kept, if those before it are within the limit.
  remember_send_context_keeps :
      (mid : String) (context : C) (notes : Table String C)
      → length notes ≤ send_context_limit
      → Table.lookup mid (remember_send_context mid context notes) ≡ some context
  unfolding remember_send_context
  remember_send_context_keeps mid context [] h =
      kept_short mid context [] (omega (arith, length-insert mid context []))
  remember_send_context_keeps mid context ((j, w) ∷ rest) h = elim (Bool-cases (str_eq j mid)) [
    | inl e ↦
        kept_short mid context ((j, w) ∷ rest)
          (omega (arith, length-insert_same mid j context w rest e))
    | inr e ↦
        elim (Bool-cases
          (leb (length (Table.insert mid context ((j, w) ∷ rest))) send_context_limit)) [
            | inl short ↦ kept_short mid context ((j, w) ∷ rest) (leb→le _ _ short)
            | inr long ↦
                let grown = insert_other mid j context w rest e in
                let dropped =
                  trimmed_long (j, w) (Table.insert mid context rest)
                    (ground (arith, ap (λ (t : Table String C). length t) grown)) in
                rw (grown, dropped)
                  (kept_short mid context rest (omega (arith, length-insert mid context rest)))
          ]
  ]

  abbrev IsBounded : Client C → Type 0
  IsBounded c = length c.send_context ≤ send_context_limit

  matched-IsBounded :
      (mid : String) (frame : Fields) (c : Client C)
      → IsBounded c
      → IsBounded (answer (str mid) frame c)
  unfolding answer unmatched
  matched-IsBounded mid frame c k = ground (arith, length-remove mid c.send_context)

  answer-IsBounded :
      (mid : Json) (frame : Fields) (c : Client C) → IsBounded c → IsBounded (answer mid frame c)
  answer-IsBounded mid frame c k =
      answer_cases IsBounded c k frame (λ l. k) (λ m. matched-IsBounded m frame c k) mid

  dispatch-IsBounded :
      (now : ℕ) (frame : Fields) (c : Client C) → IsBounded c → IsBounded (dispatch now frame c)
  unfolding dispatch
  dispatch-IsBounded now frame c k =
      ground (arith, answer-IsBounded (Dict.get "message_id" frame) frame c k)

  handle_frame-IsBounded :
      (now : ℕ) (frame : Json) (c : Client C) → IsBounded c → IsBounded (handle_frame now frame c)
  handle_frame-IsBounded now frame c k =
      handle_frame_cases IsBounded c k now (λ d. dispatch-IsBounded now d c k) frame

  remember_send_context_bound :
      (mid : String) (context : C) (notes : Table String C)
      → length (remember_send_context mid context notes) ≤ send_context_limit
  unfolding remember_send_context
  remember_send_context_bound mid context notes = trimmed_bound (Table.insert mid context notes)

  begin_request-IsBounded :
      (mid : String) (context : Option C) (c d : Client C)
      → begin_request mid context c ≡ some d
      → IsBounded c
      → IsBounded d
  unfolding begin_request remember_send_context
  begin_request-IsBounded mid none c d e k = ground arith
  begin_request-IsBounded mid (some context) c d e k =
      ground (arith, trimmed_bound (Table.insert mid context c.send_context))

  Step-IsBounded : {c d : Client C} → Step c d → IsBounded c → IsBounded d
  unfolding end_request mark_connected mark_disconnected close
  Step-IsBounded (asks {c} {d} mid context fresh e) k = begin_request-IsBounded mid context c d e k
  Step-IsBounded (remembers {c} mid context) k =
      remember_send_context_bound mid context c.send_context
  Step-IsBounded (hears {c} now frame) k = handle_frame-IsBounded now frame c k
  Step-IsBounded (ends mid) k = k
  Step-IsBounded connects k = k
  Step-IsBounded loses k = omega arith
  Step-IsBounded closes k = omega arith

  Reach-IsBounded : {c d : Client C} → Reach c d → IsBounded c → IsBounded d
  Reach-IsBounded here k = k
  Reach-IsBounded (next r s) k = Step-IsBounded s (Reach-IsBounded r k)

  -- The notes on what was sent stay bounded, and the newest is among them: whatever a new client has
  -- been through, at most 256 notes are held, and the note of a next request or `set_state` is held
  -- once it is made.
  pub reach_noted :
      (c : Client C) (mid : String) (context : C)
      → Reach new_client c
      → (length c.send_context ≤ send_context_limit)
        × (Table.lookup mid (remember_send_context mid context c.send_context) ≡ some context)
  reach_noted c mid context r =
      let k = Reach-IsBounded r (omega arith) in
      (k, remember_send_context_keeps mid context c.send_context k)
