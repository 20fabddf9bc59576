-- ===== src/Learning/Observe/Dispatches.antt =====
-- ct_learner.py, `CTBoundsLearner`: sequences of dispatches and readings.
use indigo_matter.Prelude.{
  ℕ, ◌+◌, String, Option, none, some, List, [], ◌∷◌, ℤ, ◌-ℤ◌, ◌≤ℤ◌, abs, ◌≡◌, ◌≢◌, inl, inr, refl,
  ap, sym, ◌∙◌, arith, Bool-cases, ltb, le→not_ltb_ℤ,
}
use indigo_matter.Python.{Json}
use indigo_matter.Python.Table
use indigo_matter.Python.Table.{
  int_key, eq_ℤ_iff, IsUnique, lookup-insert, lookup-insert_same, lookup-remove, insert-IsUnique,
  remove-IsUnique,
}
use indigo_matter.Ct.Bounds.{effective_ct_bounds, ct_roles}
use indigo_matter.Exports.Options.{elem}
use indigo_matter.Exports.Entry.{Entry}
use indigo_matter.Exports.Store.{Flush}
use indigo_matter.Learning.Adopt.{Side, World}
use indigo_matter.Learning.Observe.{
  Commanded, Pending, Learner, side_of, drop_pending, set_pending, repeats, is_inert, shortfall,
  settled, observe_locked, observe, freshness_window, shortfall_threshold_mireds,
}
use indigo_matter.Learning.Observe.Evidence.{observe-IsEvident}

-- One call of `observe`: the export as the caller read it, the reading, and the time.
pub record Reading : Type 0 where
  pub entry : Entry
  pub mireds : ℤ
  pub now : ℕ

abbrev pub IsInside : Reading → Type 0
IsInside r =
    ((effective_ct_bounds (some r.entry.options)).0 ≤ℤ r.mireds)
    × (r.mireds ≤ℤ (effective_ct_bounds (some r.entry.options)).1)

abbrev pub AllInside : List Reading → Type 0
AllInside [] = Unit
AllInside (r ∷ rs) = IsInside r × AllInside rs

-- Every streak was started by the dispatch that its device was last given.
record IsCurrent (learner : Learner) : Type 0 where
  unique : IsUnique learner.pending
  current :
      (k : ℤ) (p : Pending) (c : Commanded)
      → Table.lookup k learner.pending ≡ some p
      → Table.lookup k learner.commanded ≡ some c
      → p.commanded_at ≡ c.at

drop_pending-IsCurrent :
    (device_id : ℤ) (learner : Learner)
    → IsCurrent learner
    → IsCurrent (drop_pending device_id learner)
unfolding drop_pending
drop_pending-IsCurrent device_id learner cur = record {
  unique = remove-IsUnique device_id learner.pending cur.unique;
  current = λ k p c h d.
      ground (arith, lookup-remove device_id k learner.pending cur.unique, cur.current k p c);
}

set_pending-IsCurrent :
    (device_id : ℤ) (side : Side) (mireds : ℤ) (now : ℕ) (c : Commanded) (learner : Learner)
    → Table.lookup device_id learner.commanded ≡ some c
    → IsCurrent learner
    → IsCurrent (set_pending device_id side mireds c.at now learner)
unfolding set_pending
set_pending-IsCurrent device_id side mireds now c learner at cur = record {
  unique = insert-IsUnique device_id _ learner.pending cur.unique;
  current = λ k p d h there. ground (
    arith,
    eq_ℤ_iff device_id k,
    lookup-insert device_id k
        (record { side = side; mireds = mireds; commanded_at = c.at; started_at = now })
        learner.pending,
    cur.current k p d,
    ap (λ (i : ℤ). Table.lookup i learner.commanded),
  );
}

-- What one reading does to the streaks, for any reading of the device.
module _ (dumps : Json → String) (flush : Flush) (r : Reading) (learner : Learner)
    (world : World) where
  settled-IsCurrent :
      (reference : Option Commanded)
      → Table.lookup r.entry.indigo_device_id learner.commanded ≡ reference
      → IsCurrent learner
      → IsCurrent (settled dumps flush r.entry r.mireds r.now reference (learner, world)).0
  unfolding settled shortfall
  settled-IsCurrent none at cur = drop_pending-IsCurrent r.entry.indigo_device_id learner cur
  settled-IsCurrent (some c) at cur = elim (Bool-cases (ltb (c.at + freshness_window) r.now)) [
    | inl stale ↦ rw stale (drop_pending-IsCurrent r.entry.indigo_device_id learner cur)
    | inr fresh ↦ elim (Bool-cases (ltb (abs (r.mireds -ℤ c.mireds)) shortfall_threshold_mireds)) [
      | inl matched ↦
          rw (fresh, matched) (drop_pending-IsCurrent r.entry.indigo_device_id learner cur)
      | inr short ↦
          rw (fresh, short)
            (elim (Bool-cases (
              repeats (side_of (r.mireds -ℤ c.mireds)) r.mireds
                (Table.lookup r.entry.indigo_device_id learner.pending))) [
                  | inr fails ↦ rw fails (
                      set_pending-IsCurrent r.entry.indigo_device_id _ r.mireds r.now c learner at
                        cur)
                  | inl again ↦
                      elim (Bool-cases (
                        is_inert c.at r.now
                          (Table.lookup r.entry.indigo_device_id learner.pending))) [
                            | inl inert ↦ rw (again, inert) cur
                            | inr live ↦
                                rw (again, live)
                                  (drop_pending-IsCurrent r.entry.indigo_device_id learner cur)
                          ]
                ])
    ]
  ]

module _ (dumps : Json → String) (flush : Flush) where
  -- The calls one after the other.
  pub observe_all : List Reading → Learner × World → Learner × World
  observe_all [] state = state
  observe_all (r ∷ rs) state = observe_all rs (observe dumps flush r.entry r.mireds r.now state)

module _ (dumps : Json → String) (flush : Flush) (r : Reading) (learner : Learner)
    (world : World) where
  observe-IsCurrent :
      IsInside r
      → IsCurrent learner
      → IsCurrent (observe dumps flush r.entry r.mireds r.now (learner, world)).0
  unfolding observe observe_locked
  observe-IsCurrent inside cur = elim (Bool-cases (elem r.entry.role ct_roles)) [
    | inr other ↦ rw other cur
    | inl ct ↦
        rw
          (
            ct,
            le→not_ltb_ℤ r.mireds (effective_ct_bounds (some r.entry.options)).0 inside.0,
            le→not_ltb_ℤ (effective_ct_bounds (some r.entry.options)).1 r.mireds inside.1,
          )
          (settled-IsCurrent dumps flush r learner world
            (Table.lookup r.entry.indigo_device_id learner.commanded) refl cur)
  ]

  -- A streak that its own dispatch started is confirmed by no reading.
  observe_unmoved :
      IsInside r
      → IsCurrent learner
      → (observe dumps flush r.entry r.mireds r.now (learner, world)).1 ≡ world
  observe_unmoved inside cur =
      elim (observe-IsEvident dumps flush r.entry r.mireds r.now learner world inside.0 inside.1) [
        | inl same ↦ same
        | inr (c, p, there, at, ev, _) ↦
            absurd (ev.distinct (sym (cur.current r.entry.indigo_device_id p c at there)))
      ]

observe_all_current :
    (dumps : Json → String) (flush : Flush) (rs : List Reading) (learner : Learner) (world : World)
    → AllInside rs
    → IsCurrent learner
    → (observe_all dumps flush rs (learner, world)).1 ≡ world
unfolding observe_all
observe_all_current dumps flush [] learner world inside cur = refl
observe_all_current dumps flush (r ∷ rs) learner world inside cur =
    let state = observe dumps flush r.entry r.mireds r.now (learner, world) in
    observe_all_current dumps flush rs state.0 state.1 inside.1
      (observe-IsCurrent dumps flush r learner world inside.0 cur)
    ∙ observe_unmoved dumps flush r learner world inside.0 cur

no_streak :
    (k : ℤ) (p : Pending) (learner : Learner)
    → learner.pending ≡ []
    → Table.lookup k learner.pending ≢ some p
unfolding Table.lookup
no_streak k p learner empty h = cc

-- After the dispatches so far, with no streak standing, readings inside the bounds in force change no
-- export until a next dispatch is recorded: however many they are, whatever devices they are of, and
-- whenever they come.
pub observe_all_unmoved :
    (dumps : Json → String) (flush : Flush) (rs : List Reading) (learner : Learner) (world : World)
    → learner.pending ≡ []
    → AllInside rs
    → (observe_all dumps flush rs (learner, world)).1 ≡ world
observe_all_unmoved dumps flush rs learner world empty inside =
    observe_all_current dumps flush rs learner world inside (record {
      unique = rw empty tt;
      current = λ k p c h d. absurd (no_streak k p learner empty h);
    })
