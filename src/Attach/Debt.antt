-- ===== src/Attach/Debt.antt =====
-- export_bridge.py: the debt of an un-export is owed until the node has taken it.
use indigo_matter.Prelude.{
  ℕ, Bool, lt→ltb, zero, suc, ◌≤◌, ◌<◌, String, true, false, List, [], ◌∷◌, ℤ, pos, pos_part, ◌≡◌,
  refl, arith, inl, inr, leb, ◌==◌, if◌then◌else◌,
}
use indigo_matter.Python.{Json, ok, err, int, int_of, truthy, Result-cases, Error}
use indigo_matter.Attach.{
  Answer, Meeting, ending_of, answered, after_attach, handshake, pending_replace_all, owed_removals,
  record_pending_replace_all, replace_all, on_attached, Event, empties, connects, rebuilds,
  reattaches, discharges, step, run,
}

-- No event of a history discharges the debt.
unfoldable pub IsOwing : List Event → Json → Type 0
IsOwing [] raw = Unit
IsOwing (e ∷ events) raw = (discharges e raw ≡ false) × IsOwing events (step e raw)

owed_int : (n : ℕ) → owed_removals (int (pos n)) ≡ n
unfolding owed_removals pending_replace_all truthy int_of
owed_int zero = refl
owed_int (suc n) = refl

pub owed_of_ok :
    (raw : Json) (z : ℤ) → pending_replace_all raw ≡ ok z → owed_removals raw ≡ pos_part z
unfolding owed_removals
owed_of_ok raw z e = rw (e, owed_removals) refl

record_of_ok :
    (n : ℕ) (raw : Json) (z : ℤ)
    → pending_replace_all raw ≡ ok z
    → record_pending_replace_all true n raw ≡ (
        let owed = if leb (pos_part z) n then n else pos_part z in
        if owed == 0 then raw else int (pos owed))
unfolding record_pending_replace_all
record_of_ok n raw z e = rw (e, record_pending_replace_all) (ground arith)

pub unrecorded :
    (n : ℕ) (raw : Json) (z : ℤ)
    → pending_replace_all raw ≡ ok z
    → record_pending_replace_all false n raw ≡ raw
unfolding record_pending_replace_all
unrecorded n raw z e = rw (e, record_pending_replace_all) (ground arith)

pub record_of_err :
    (recorded : Bool) (n : ℕ) (raw : Json) (x : Error)
    → pending_replace_all raw ≡ err x
    → record_pending_replace_all recorded n raw ≡ raw
unfolding record_pending_replace_all
record_of_err recorded n raw x e = rw (e, record_pending_replace_all) refl

-- A debt that can be read is recorded as the larger one.
pub owed-record :
    (n : ℕ) (raw : Json) (z : ℤ)
    → pending_replace_all raw ≡ ok z
    → owed_removals (record_pending_replace_all true n raw)
      ≡ (if leb (pos_part z) n then n else pos_part z)
owed-record n raw z e =
    rw (record_of_ok n raw z e)
      (ground (arith, owed_of_ok raw z e, owed_int n, owed_int (pos_part z)))

-- Whether or not the write succeeds, the debt covers the one before.
pub record-owed :
    (recorded : Bool) (n : ℕ) (raw : Json)
    → owed_removals raw ≤ owed_removals (record_pending_replace_all recorded n raw)
record-owed false n raw = elim (Result-cases (pending_replace_all raw)) [
  | inl (z, e) ↦ rw (unrecorded n raw z e) (omega arith)
  | inr (x, e) ↦ rw (record_of_err false n raw x e) (omega arith)
]
record-owed true n raw = elim (Result-cases (pending_replace_all raw)) [
  | inl (z, e) ↦ ground (arith, owed-record n raw z e, owed_of_ok raw z e)
  | inr (x, e) ↦ rw (record_of_err true n raw x e) (omega arith)
]

-- An event that does not discharge it leaves the debt no smaller.
step-owed :
    (e : Event) (raw : Json)
    → discharges e raw ≡ false
    → owed_removals raw ≤ owed_removals (step e raw)
unfolding step discharges on_attached
step-owed (empties removing recorded answer) raw h =
    ground (arith, record-owed recorded removing raw)
step-owed (connects m) raw h = ground (arith, record-owed m.recorded m.meanwhile raw)
step-owed (rebuilds specs declared answer) raw h = ground arith
step-owed (reattaches answer) raw h = ground arith

run-owed :
    (events : List Event) (raw : Json)
    → IsOwing events raw
    → owed_removals raw ≤ owed_removals (run events raw)
unfolding run IsOwing
run-owed [] raw h = ground arith
run-owed (e ∷ events) raw h = ground (arith, step-owed e raw h.0, run-owed events (step e raw) h.1)

-- Every attach of a handshake that reads a debt carries the intent.
handshake_carries :
    (m : Meeting) (raw : Json)
    → m.same_version ≡ true
    → m.glitch ≡ false
    → 0 < owed_removals raw
    → handshake m raw ≡ ending_of true (answered m.live m.specs true m.first_answer)
unfolding handshake replace_all after_attach
handshake_carries m raw version reads owing =
    rw (version, reads, lt→ltb 0 (owed_removals raw) owing) refl

-- A recorded debt is owed until it is discharged: after an un-export of n endpoints whose debt the prefs
-- take and keep and whose attach the node does not accept, and any history in which no attach with the
-- intent is accepted, at least n are owed; so a re-attach after a rebuild carries the intent, whatever
-- is exported by then, and a handshake whose read of the debt does not raise ends as the node answers
-- its attach with the intent. The debt before can be read.
pub run_empties-owed :
    (n : ℕ) (raw : Json) (z : ℤ) (answer : Answer) (events : List Event) (specs : List (String × ℤ))
    (declared : ℕ) (m : Meeting)
    → 0 < n
    → pending_replace_all raw ≡ ok z
    → IsOwing (empties n true answer ∷ events) raw
    → m.same_version ≡ true
    → m.glitch ≡ false
    → (n ≤ owed_removals (run (empties n true answer ∷ events) raw))
      × (replace_all (owed_removals (run (empties n true answer ∷ events) raw)) specs declared
          ≡ true)
      × (handshake m (run (empties n true answer ∷ events) raw)
          ≡ ending_of true (answered m.live m.specs true m.first_answer))
unfolding run IsOwing replace_all step discharges
run_empties-owed n raw z answer events specs declared m h e k version reads =
    let kept = run-owed events (step (empties n true answer) raw) k.1 in
    let owing : n ≤ owed_removals (run (empties n true answer ∷ events) raw) =
      ground (arith, kept, owed-record n raw z e) in
    (
      owing,
      ground (arith, owing),
      handshake_carries m (run (empties n true answer ∷ events) raw) version reads
          (omega (arith, owing)),
    )
