-- ===== src/Attach/Halts.antt =====
-- bridge_client.py: when the guard of the node halts the client for good.
use indigo_matter.Prelude.{
  ℕ, ◌<◌, String, Bool, true, false, ◌&&◌, List, [], ◌∷◌, ℤ, ◌≡◌, refl, ap, arith, inl, inr, ltb,
  ◌==◌, any, All, str_eq, eq_ℤ, length, Bool-cases, lt→ltb, if◌then◌else◌,
}
use indigo_matter.Python.{Json, ok, Result-cases}
use indigo_matter.Python.Table.{text_key}
use indigo_matter.Attach.{
  Spec, Live, publishes, creates_for, survivors, is_mass_removal, Answer, accepted, broken, refused,
  answered, pending_replace_all, owed_removals, record_pending_replace_all, replace_all, is_none,
  Ending, halted, handle_attach_refused, Meeting, ending_of, retried, after_attach, handshake,
  err_mass_removal_refused,
}
use indigo_matter.Attach.Debt.{record-owed, owed-record, owed_of_ok, record_of_err, unrecorded}

-- The node refuses a mass removal by its guard alone.
abbrev pub is_mass_refusal : Answer → Bool
is_mass_refusal (refused code) = str_eq code err_mass_removal_refused
is_mass_refusal _ = false

abbrev pub is_mass_halt : Ending → Bool
is_mass_halt (halted code) = str_eq code err_mass_removal_refused
is_mass_halt _ = false

refused_other :
    (code : String)
    → str_eq code err_mass_removal_refused ≡ false
    → is_mass_halt (handle_attach_refused code) ≡ false
unfolding handle_attach_refused
refused_other code h = ground arith

refused_other_ending :
    (carried : Bool) (answer : Answer)
    → is_mass_refusal answer ≡ false
    → is_mass_halt (ending_of carried answer) ≡ false
unfolding ending_of
refused_other_ending carried accepted h = refl
refused_other_ending carried broken h = refl
refused_other_ending carried (refused code) h = refused_other code h

-- The guard lets an attach with the intent pass.
answered_with_intent :
    (live : Live) (specs : List Spec) (otherwise : Answer)
    → answered live specs true otherwise ≡ otherwise
unfolding answered is_mass_removal
answered_with_intent live specs otherwise =
    elim (Bool-cases (ltb 0 (length live) && survivors live live specs == 0)) [
      | inl e ↦ ground arith
      | inr e ↦ ground arith
    ]

with_intent :
    (live : Live) (specs : List Spec) (otherwise : Answer)
    → is_mass_refusal otherwise ≡ false
    → is_mass_halt (ending_of true (answered live specs true otherwise)) ≡ false
with_intent live specs otherwise h =
    rw (answered_with_intent live specs otherwise) (refused_other_ending true otherwise h)

retried_owing :
    (m : Meeting) (raw : Json)
    → 0 < owed_removals raw
    → is_mass_refusal m.second_answer ≡ false
    → is_mass_halt (retried m raw) ≡ false
unfolding retried
retried_owing m raw owing h =
    rw (lt→ltb 0 (owed_removals raw) owing) (with_intent m.live m.specs_again m.second_answer h)

after_attach_owing :
    (m : Meeting) (raw : Json) (answer : Answer)
    → 0 < owed_removals raw
    → is_mass_refusal m.second_answer ≡ false
    → is_mass_halt (after_attach m false raw answer) ≡ false
unfolding after_attach
after_attach_owing m raw accepted owing h = refl
after_attach_owing m raw broken owing h = refl
after_attach_owing m raw (refused code) owing h =
    elim (Bool-cases (str_eq code err_mass_removal_refused)) [
      | inl e ↦ rw e (retried_owing m raw owing h)
      | inr e ↦ rw e (refused_other code e)
    ]

after_attach_intent :
    (m : Meeting) (raw : Json) (carried : Bool)
    → 0 < owed_removals raw
    → is_mass_refusal m.first_answer ≡ false
    → is_mass_refusal m.second_answer ≡ false
    → is_mass_halt (after_attach m carried raw (answered m.live m.specs carried m.first_answer))
      ≡ false
unfolding after_attach
after_attach_intent m raw true owing first second = with_intent m.live m.specs m.first_answer first
after_attach_intent m raw false owing first second =
    after_attach_owing m raw (answered m.live m.specs false m.first_answer) owing second

version_checked :
    (same : Bool) (e : Ending)
    → is_mass_halt e ≡ false
    → is_mass_halt (if same then e else halted "version_skew") ≡ false
version_checked true e h = h
version_checked false e h = refl

-- A recorded debt never halts the client: a handshake while an un-export is owed is not halted by a
-- refused mass removal, also where the first read of the debt raises, if the node refuses a mass
-- removal by its guard alone.
pub handshake_owing :
    (m : Meeting) (raw : Json)
    → 0 < owed_removals raw
    → is_mass_refusal m.first_answer ≡ false
    → is_mass_refusal m.second_answer ≡ false
    → is_mass_halt (handshake m raw) ≡ false
unfolding handshake
handshake_owing m raw owing first second = version_checked m.same_version _ (
    after_attach_intent m (record_pending_replace_all m.recorded m.meanwhile raw)
      (replace_all (if m.glitch then 0 else owed_removals raw) m.specs m.declared)
      (omega (arith, record-owed m.recorded m.meanwhile raw)) first second)

-- No live endpoint is desired, and no device of one drives a desired one.
abbrev pub IsDisjoint : List Spec → Live → Type 0
IsDisjoint specs live =
    All (λ l. (publishes specs l.0 ≡ false) × (any (λ s. eq_ℤ s.1 l.1) specs ≡ false)) live

creates_for-any :
    (live : Live) (device : ℤ) (specs : List Spec)
    → any (λ s. eq_ℤ s.1 device) specs ≡ false
    → creates_for live specs device ≡ false
unfolding creates_for
creates_for-any live device [] h = refl
creates_for-any live device (s ∷ specs) h = ground (arith, creates_for-any live device specs)

survivors_disjoint :
    (all live : Live) (specs : List Spec) → IsDisjoint specs live → survivors all live specs ≡ 0
unfolding survivors
survivors_disjoint all [] specs h = refl
survivors_disjoint all ((key, device) ∷ live) specs h =
    ground (arith, creates_for-any all device specs h.0.1, survivors_disjoint all live specs h.1)

nothing_owed :
    (recorded : Bool) (raw : Json) (z : ℤ)
    → pending_replace_all raw ≡ ok z
    → owed_removals raw ≡ 0
    → owed_removals (record_pending_replace_all recorded 0 raw) ≡ 0
nothing_owed true raw z e h = ground (arith, owed-record 0 raw z e, owed_of_ok raw z e)
nothing_owed false raw z e h = rw (unrecorded 0 raw z e) h

unowed_record :
    (recorded : Bool) (raw : Json)
    → owed_removals raw ≡ 0
    → owed_removals (record_pending_replace_all recorded 0 raw) ≡ 0
unowed_record recorded raw h = elim (Result-cases (pending_replace_all raw)) [
  | inl (z, e) ↦ nothing_owed recorded raw z e h
  | inr (x, e) ↦ rw (record_of_err recorded 0 raw x e) h
]

-- A swap of all that is exported halts the client: where no un-export is owed or recorded meanwhile, a
-- handshake that declares specs of other devices and identities than those of the live endpoints ends
-- halted by a refused mass removal, although the attach carries endpoints.
pub handshake_disjoint :
    (m : Meeting) (raw : Json)
    → m.same_version ≡ true
    → 0 < length m.live
    → is_none m.specs ≡ false
    → IsDisjoint m.specs m.live
    → owed_removals raw ≡ 0
    → m.meanwhile ≡ 0
    → handshake m raw ≡ halted err_mass_removal_refused
unfolding handshake answered is_mass_removal replace_all after_attach retried handle_attach_refused
handshake_disjoint m raw version served desired apart unowed quiet = ground (
  arith,
  survivors_disjoint m.live m.live m.specs apart,
  unowed_record m.recorded raw unowed,
  ap (λ (n : ℕ). owed_removals (record_pending_replace_all m.recorded n raw)) quiet,
)
