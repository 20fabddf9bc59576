-- ===== src/Learning/Observe/Confirmed.antt =====
-- ct_learner.py, `CTBoundsLearner`: two dispatches that are answered short.
use indigo_matter.Prelude.{
  ℕ, ◌+◌, ◌≤◌, String, true, false, none, some, ℤ, ◌-ℤ◌, abs, ◌≡◌, ◌≢◌, refl, ap, ◌∙◌, arith,
  le→ltb, le→not_ltb_ℤ,
}
use indigo_matter.Python.{Json}
use indigo_matter.Python.Table
use indigo_matter.Python.Table.{
  int_key, eq_ℤ_iff, IsUnique, lookup-insert, lookup-insert_same, lookup-remove, insert-IsUnique,
  remove-IsUnique,
}
use indigo_matter.Ct.Bounds.{effective_ct_bounds, ct_roles}
use indigo_matter.Exports.Options.{elem}
use indigo_matter.Exports.Entry.{Entry}
use indigo_matter.Exports.Store.{Flush}
use indigo_matter.Learning.Adopt.{Side, World, adopt}
use indigo_matter.Learning.Observe.{
  Commanded, Pending, Learner, side_of, drop_pending, set_pending, repeats, shortfall, settled,
  observe_locked, observe, freshness_window, shortfall_threshold_mireds, repeat_tolerance_mireds,
  min_confirmation_gap, record_commanded,
}
use indigo_matter.Learning.Observe.Evidence.{Confirms, confirmed}
use indigo_matter.Learning.Observe.Dispatches.{IsInside}

module _ (dumps : Json → String) (flush : Flush) (entry : Entry) (mireds : ℤ) (now : ℕ)
    (learner : Learner) (world : World) (c : Commanded) (ct : elem entry.role ct_roles ≡ true)
    (inside : IsInside (record { entry = entry; mireds = mireds; now = now }))
    (there : Table.lookup entry.indigo_device_id learner.commanded ≡ some c)
    (fresh : now ≤ c.at + freshness_window)
    (short : shortfall_threshold_mireds ≤ abs (mireds -ℤ c.mireds)) where
  observe_short :
      observe dumps flush entry mireds now (learner, world)
      ≡ shortfall dumps flush entry mireds now c (learner, world)
  unfolding observe observe_locked settled
  observe_short = rw (
    ct,
    le→not_ltb_ℤ mireds (effective_ct_bounds (some entry.options)).0 inside.0,
    le→not_ltb_ℤ (effective_ct_bounds (some entry.options)).1 mireds inside.1,
    there,
    le→ltb _ _ fresh,
    le→ltb _ _ short,
  )

  observe_opens :
      Table.lookup entry.indigo_device_id learner.pending ≡ none
      → observe dumps flush entry mireds now (learner, world) ≡ (
        set_pending entry.indigo_device_id (side_of (mireds -ℤ c.mireds)) mireds c.at now learner,
        world,
      )
  observe_opens absent = observe_short ∙ (unfold shortfall repeats in rw absent)

  observe-Confirms :
      (p : Pending)
      → Table.lookup entry.indigo_device_id learner.pending ≡ some p
      → Confirms mireds now c p
      → observe dumps flush entry mireds now (learner, world) ≡ (
        drop_pending entry.indigo_device_id learner,
        adopt dumps flush entry p.side mireds false world,
      )
  observe-Confirms p at ev =
      observe_short ∙ confirmed dumps flush entry mireds now learner world c p at ev

lookup-record_commanded :
    (k mireds : ℤ) (now : ℕ) (learner : Learner)
    → Table.lookup k (record_commanded k mireds now learner).commanded
      ≡ some (record { mireds = mireds; at = now })
unfolding record_commanded
lookup-record_commanded k mireds now learner = lookup-insert_same k _ learner.commanded

pending-record_commanded :
    (k mireds : ℤ) (now : ℕ) (learner : Learner)
    → Table.lookup k (record_commanded k mireds now learner).pending
      ≡ Table.lookup k learner.pending
unfolding record_commanded
pending-record_commanded k mireds now learner = refl

lookup-set_pending :
    (k : ℤ) (side : Side) (mireds : ℤ) (sent heard : ℕ) (learner : Learner)
    → Table.lookup k (set_pending k side mireds sent heard learner).pending
      ≡ some (record { side = side; mireds = mireds; commanded_at = sent; started_at = heard })
unfolding set_pending
lookup-set_pending k side mireds sent heard learner = lookup-insert_same k _ learner.pending

distance_zero : (m : ℤ) → abs (m -ℤ m) ≤ repeat_tolerance_mireds
distance_zero m = ground arith

-- One dispatch and the reading that answers it.
unfoldable pub answered :
    (Json → String) → Flush → Entry → ℤ → ℤ → ℕ → ℕ → Learner × World → Learner × World
answered dumps flush entry ask mireds sent heard (learner, world) =
    observe dumps flush entry mireds heard
      (record_commanded entry.indigo_device_id ask sent learner, world)

-- A device that is asked twice for the same temperature, and answers each time, within the
-- freshness window, with the same value at least 10 mireds short and inside the bounds in force, has
-- that value adopted on that side, if the dispatches carry different times, the second answer comes
-- at least 2 seconds after the first, the role is a colour-temperature one, and no streak stood.
pub answered-answered :
    (dumps : Json → String) (flush : Flush) (entry : Entry) (ask mireds : ℤ) (t₁ t₂ t₃ t₄ : ℕ)
    (learner : Learner) (world : World)
    → elem entry.role ct_roles ≡ true
    → IsInside (record { entry = entry; mireds = mireds; now = t₂ })
    → shortfall_threshold_mireds ≤ abs (mireds -ℤ ask)
    → Table.lookup entry.indigo_device_id learner.pending ≡ none
    → t₂ ≤ t₁ + freshness_window
    → t₄ ≤ t₃ + freshness_window
    → t₃ ≢ t₁
    → t₂ + min_confirmation_gap ≤ t₄
    → (answered dumps flush entry ask mireds t₃ t₄
        (answered dumps flush entry ask mireds t₁ t₂ (learner, world))).1
      ≡ adopt dumps flush entry (side_of (mireds -ℤ ask)) mireds false world
unfolding answered
answered-answered dumps flush entry ask mireds t₁ t₂ t₃ t₄ learner world ct inside short absent f₁
      f₂ other late =
    let id = entry.indigo_device_id in
    let side = side_of (mireds -ℤ ask) in
    let first = record_commanded id ask t₁ learner in
    let opened = set_pending id side mireds t₁ t₂ first in
    let second = record_commanded id ask t₃ opened in
    rw
      (observe_opens dumps flush entry mireds t₂ first world (record { mireds = ask; at = t₁ }) ct
        inside (lookup-record_commanded id ask t₁ learner) f₁ short
        (pending-record_commanded id ask t₁ learner ∙ absent))
      (ap (λ (s : Learner × World). s.1)
        (observe-Confirms dumps flush entry mireds t₄ second world
          (record { mireds = ask; at = t₃ }) ct inside (lookup-record_commanded id ask t₃ opened) f₂
          short (record { side = side; mireds = mireds; commanded_at = t₁; started_at = t₂ })
          (pending-record_commanded id ask t₃ opened
            ∙ lookup-set_pending id side mireds t₁ t₂ first)
          (record {
            fresh = f₂;
            short = short;
            sided = refl;
            near = distance_zero mireds;
            distinct = other;
            late = late;
          })))
