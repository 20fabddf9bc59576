-- ===== src/Learning/Observe/Evidence.antt =====
-- ct_learner.py, `_observe_locked`: what a reading inside the bounds must be to be adopted.
use indigo_matter.Prelude.{
  ℕ, ◌+◌, ◌≤◌, String, true, false, Option, none, some, ℤ, ◌-ℤ◌, ◌≤ℤ◌, abs, ◌≡◌, ◌≢◌, ◌⊎◌, inl, inr,
  refl, arith, le→leb, le→not_ltb_ℤ, not_ltb→le, ltb, Bool-cases, Option-cases,
}
use indigo_matter.Python.{Json}
use indigo_matter.Python.Table
use indigo_matter.Python.Table.{int_key}
use indigo_matter.Ct.Bounds.{effective_ct_bounds, ct_roles}
use indigo_matter.Exports.Options.{elem}
use indigo_matter.Exports.Entry.{Entry}
use indigo_matter.Exports.Store.{Flush}
use indigo_matter.Learning.Adopt.{Side, cool, warm, World, adopt}
use indigo_matter.Learning.Observe.{
  Commanded, Pending, Learner, side_of, drop_pending, repeats, is_inert, shortfall, settled,
  observe_locked, observe, freshness_window, shortfall_threshold_mireds, repeat_tolerance_mireds,
  min_confirmation_gap,
}

-- A reading that confirms a streak: it falls short of a fresh reference by the threshold or more,
-- on the side and near the value of the streak, and answers another dispatch than the one that
-- started the streak, at least the gap later.
pub record Confirms (mireds : ℤ) (now : ℕ) (c : Commanded) (p : Pending) : Type 0 where
  pub fresh : now ≤ c.at + freshness_window
  pub short : shortfall_threshold_mireds ≤ abs (mireds -ℤ c.mireds)
  pub sided : p.side ≡ side_of (mireds -ℤ c.mireds)
  pub near : abs (p.mireds -ℤ mireds) ≤ repeat_tolerance_mireds
  pub distinct : c.at ≢ p.commanded_at
  pub late : p.started_at + min_confirmation_gap ≤ now

repeats→ :
    (s : Side) (mireds : ℤ) (p : Pending)
    → repeats s mireds (some p) ≡ true
    → (p.side ≡ s) × (abs (p.mireds -ℤ mireds) ≤ repeat_tolerance_mireds)
unfolding repeats
repeats→ s mireds p h = ground arith

is_inert→ :
    (at now : ℕ) (p : Pending)
    → is_inert at now (some p) ≡ false
    → (at ≢ p.commanded_at) × (p.started_at + min_confirmation_gap ≤ now)
unfolding is_inert
is_inert→ at now p h = ground arith

→repeats :
    (s : Side) (mireds : ℤ) (p : Pending)
    → p.side ≡ s
    → abs (p.mireds -ℤ mireds) ≤ repeat_tolerance_mireds
    → repeats s mireds (some p) ≡ true
unfolding repeats
→repeats cool mireds p h k = rw (h, le→leb _ _ k)
→repeats warm mireds p h k = rw (h, le→leb _ _ k)

→is_inert :
    (at now : ℕ) (p : Pending)
    → at ≢ p.commanded_at
    → p.started_at + min_confirmation_gap ≤ now
    → is_inert at now (some p) ≡ false
unfolding is_inert
→is_inert at now p h k = ground arith

-- The reading left the exports alone, or it confirmed the streak of the device and was adopted, and
-- the streak is over.
abbrev pub IsEvident :
    (Json → String)
    → Flush
    → Entry
    → ℤ
    → ℕ
    → Learner
    → World
    → Option Commanded
    → Option Pending
    → Learner × World
    → Type 0
IsEvident dumps flush entry mireds now learner world reference streak after =
    (after.1 ≡ world)
    ⊎ ((c : Commanded) × (p : Pending) × (reference ≡ some c)
        × (streak ≡ some p)
        × Confirms mireds now c p
        × (after ≡ (
          drop_pending entry.indigo_device_id learner,
          adopt dumps flush entry p.side mireds false world,
        )))

module _ (dumps : Json → String) (flush : Flush) (entry : Entry) (mireds : ℤ) (now : ℕ)
    (learner : Learner) (world : World) where
  pub confirmed :
      (c : Commanded) (p : Pending)
      → Table.lookup entry.indigo_device_id learner.pending ≡ some p
      → Confirms mireds now c p
      → shortfall dumps flush entry mireds now c (learner, world) ≡ (
        drop_pending entry.indigo_device_id learner,
        adopt dumps flush entry p.side mireds false world,
      )
  unfolding shortfall
  confirmed c p at ev = rw (
    at,
    →repeats (side_of (mireds -ℤ c.mireds)) mireds p ev.sided ev.near,
    →is_inert c.at now p ev.distinct ev.late,
    ev.sided,
  )

  shortfall-IsEvident :
      (c : Commanded)
      → now ≤ c.at + freshness_window
      → shortfall_threshold_mireds ≤ abs (mireds -ℤ c.mireds)
      → IsEvident dumps flush entry mireds now learner world
          (some c)
          (Table.lookup entry.indigo_device_id learner.pending)
          (shortfall dumps flush entry mireds now c (learner, world))
  shortfall-IsEvident c fresh short =
      elim (Option-cases (Table.lookup entry.indigo_device_id learner.pending)) [
        | inl absent ↦ inl (unfold shortfall repeats in rw absent)
        | inr (p, at) ↦ elim (Bool-cases (repeats (side_of (mireds -ℤ c.mireds)) mireds (some p))) [
          | inr fails ↦ inl (unfold shortfall in rw (at, fails))
          | inl again ↦ elim (Bool-cases (is_inert c.at now (some p))) [
            | inl inert ↦ inl (unfold shortfall in rw (at, again, inert))
            | inr live ↦
                let ev : Confirms mireds now c p = record {
                  fresh = fresh;
                  short = short;
                  sided = (repeats→ (side_of (mireds -ℤ c.mireds)) mireds p again).0;
                  near = (repeats→ (side_of (mireds -ℤ c.mireds)) mireds p again).1;
                  distinct = (is_inert→ c.at now p live).0;
                  late = (is_inert→ c.at now p live).1;
                } in
                inr (c, p, refl, at, ev, confirmed c p at ev)
          ]
        ]
      ]

  settled-IsEvident :
      (reference : Option Commanded)
      → IsEvident dumps flush entry mireds now learner world reference
          (Table.lookup entry.indigo_device_id learner.pending)
          (settled dumps flush entry mireds now reference (learner, world))
  unfolding settled
  settled-IsEvident none = inl refl
  settled-IsEvident (some c) = elim (Bool-cases (ltb (c.at + freshness_window) now)) [
    | inl stale ↦ inl (rw stale)
    | inr fresh ↦ elim (Bool-cases (ltb (abs (mireds -ℤ c.mireds)) shortfall_threshold_mireds)) [
      | inl matched ↦ inl (rw (fresh, matched))
      | inr short ↦
          rw (fresh, short) (shortfall-IsEvident c (not_ltb→le _ _ fresh) (not_ltb→le _ _ short))
    ]
  ]

  -- A reading inside the bounds in force leaves the exports alone, or it was adopted. It is adopted
  -- only if the device has a commanded reference no older than the freshness window, the reading
  -- falls short of it by 10 mireds or more, and a streak stands on the same side within 1 mired of
  -- the reading, that another dispatch started at least 2 seconds before; the streak is then over.
  pub observe-IsEvident :
      (effective_ct_bounds (some entry.options)).0 ≤ℤ mireds
      → mireds ≤ℤ (effective_ct_bounds (some entry.options)).1
      → IsEvident dumps flush entry mireds now learner world
          (Table.lookup entry.indigo_device_id learner.commanded)
          (Table.lookup entry.indigo_device_id learner.pending)
          (observe dumps flush entry mireds now (learner, world))
  unfolding observe observe_locked
  observe-IsEvident low high = elim (Bool-cases (elem entry.role ct_roles)) [
    | inr other ↦ inl (rw other)
    | inl ct ↦
        rw
          (
            ct,
            le→not_ltb_ℤ mireds (effective_ct_bounds (some entry.options)).0 low,
            le→not_ltb_ℤ (effective_ct_bounds (some entry.options)).1 mireds high,
          )
          (settled-IsEvident (Table.lookup entry.indigo_device_id learner.commanded))
  ]
