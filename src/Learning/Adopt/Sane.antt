-- ===== src/Learning/Adopt/Sane.antt =====
-- ct_learner.py, `_adopt`: what it may change in the store.
use indigo_matter.Prelude.{
  String, Bool, true, false, some, ℤ, ◌<ℤ◌, ◌≡◌, ◌⊎◌, inl, inr, refl, arith, ◌∙◌, ap, Bool-cases,
  Option-cases, if◌then◌else◌, ◌&&◌, not, ltb_ℤ, eq_ℤ, List, ◌∷◌,
}
use indigo_matter.Python.{Json, int, Fields, ok, err, Result, Result-cases}
use indigo_matter.Python.Dict
use indigo_matter.Python.Dict.{get}
use indigo_matter.Python.Table.{int_key}
use indigo_matter.Ct.Bounds.{
  effective_ct_bounds, side, option_ct_min_mireds, option_ct_max_mireds,
  option_ct_learned_min_mireds, option_ct_learned_max_mireds,
}
use indigo_matter.Exports.Entry.{Entry}
use indigo_matter.Exports.Store.{Store, Flush, find, upsert}
use indigo_matter.Exports.Store.Invariant.{IsValid, writes-IsValid}
use indigo_matter.Exports.Store.Lookup.{upsert-IsWritten}
use indigo_matter.Learning.Adopt.{
  Side, cool, warm, World, learned_key, moved, equals_int, is_claimed, with_learned, saved,
  adopt_fresh, adopt,
}

-- The bounds in force after a candidate was recorded.
pub effective_ct_bounds_learned :
    (s : Side) (candidate : ℤ) (o : Fields)
    → effective_ct_bounds (some (Dict.insert (learned_key s) (int candidate) o))
      ≡ moved s candidate (effective_ct_bounds (some o))
unfolding effective_ct_bounds side
effective_ct_bounds_learned cool candidate o = ground (
  arith,
  Dict.lookup-insert option_ct_learned_min_mireds option_ct_learned_min_mireds (int candidate) o,
  Dict.lookup-insert option_ct_learned_min_mireds option_ct_learned_max_mireds (int candidate) o,
  Dict.lookup-insert option_ct_learned_min_mireds option_ct_max_mireds (int candidate) o,
)
effective_ct_bounds_learned warm candidate o = ground (
  arith,
  Dict.lookup-insert option_ct_learned_max_mireds option_ct_learned_max_mireds (int candidate) o,
  Dict.lookup-insert option_ct_learned_max_mireds option_ct_learned_min_mireds (int candidate) o,
  Dict.lookup-insert option_ct_learned_max_mireds option_ct_min_mireds (int candidate) o,
)

-- One learned bound was recorded for one device, and the range in force of that device moved on that
-- side alone and stayed a range.
pub record IsLearned (device_id : ℤ) (side : Side) (candidate : ℤ) (only_if_unclaimed : Bool)
    (before after : Store) (fresh : Entry) : Type 0 where
  pub there : find before device_id ≡ some fresh
  pub recorded :
      (k : ℤ)
      → find after k
        ≡ (if eq_ℤ device_id k then some (with_learned side candidate fresh) else find before k)
  pub bounds :
      effective_ct_bounds (some (with_learned side candidate fresh).options)
      ≡ moved side candidate (effective_ct_bounds (some fresh.options))
  pub ordered :
      (moved side candidate (effective_ct_bounds (some fresh.options))).0
      <ℤ (moved side candidate (effective_ct_bounds (some fresh.options))).1
  pub unclaimed : only_if_unclaimed ≡ true → is_claimed side fresh ≡ false

-- Nothing changed, or one bound was learned.
abbrev pub IsSane : ℤ → Side → ℤ → Bool → Store → Store → Type 0
IsSane device_id side candidate only before after =
    ((k : ℤ) → find after k ≡ find before k)
    ⊎ ((fresh : Entry) × IsLearned device_id side candidate only before after fresh)

-- The three guards of an adoption.
unfoldable pub passes : Side → ℤ → Bool → Entry → Bool
passes side candidate only fresh =
    let (lo, hi) = moved side candidate (effective_ct_bounds (some fresh.options)) in
    not (only && is_claimed side fresh)
    && (not (equals_int (get (learned_key side) fresh.options) candidate) && ltb_ℤ lo hi)

pub passes-ordered :
    (s : Side) (c : ℤ) (only : Bool) (e : Entry)
    → passes s c only e ≡ true
    → (moved s c (effective_ct_bounds (some e.options))).0
      <ℤ (moved s c (effective_ct_bounds (some e.options))).1
unfolding passes
passes-ordered s c only e h = ground arith

module _ (dumps : Json → String) (flush : Flush) where
  pub store-saved :
      (device_id : ℤ) (seen : List ℤ) (p : Result Entry × Store)
      → (saved device_id seen p).store ≡ p.1
  unfolding saved
  store-saved device_id seen (ok e, store) = refl
  store-saved device_id seen (err x, store) = refl

  pub republished-saved :
      (device_id : ℤ) (seen : List ℤ) (p : Result Entry × Store) (e : Entry)
      → p.0 ≡ ok e
      → (saved device_id seen p).republished ≡ device_id ∷ seen
  unfolding saved
  republished-saved device_id seen (ok e, store) _ h = refl
  republished-saved device_id seen (err x, store) _ h = cc

  pub adopt_fresh-passes :
      (device_id : ℤ) (side : Side) (candidate : ℤ) (only : Bool) (fresh : Entry) (world : World)
      → passes side candidate only fresh ≡ true
      → adopt_fresh dumps flush device_id side candidate only fresh world
        ≡ saved device_id world.republished
            (upsert dumps flush (with_learned side candidate fresh) world.store)
  unfolding adopt_fresh passes
  adopt_fresh-passes device_id side candidate only fresh world h = ground arith

  pub adopt_fresh_refuses :
      (device_id : ℤ) (side : Side) (candidate : ℤ) (only : Bool) (fresh : Entry) (world : World)
      → passes side candidate only fresh ≡ false
      → adopt_fresh dumps flush device_id side candidate only fresh world ≡ world
  unfolding adopt_fresh passes
  adopt_fresh_refuses device_id side candidate only fresh world h = ground arith

  pub keyed_of_find :
      (before : Store) (device_id : ℤ) (fresh : Entry)
      → IsValid before.entries
      → find before device_id ≡ some fresh
      → fresh.indigo_device_id ≡ device_id
  unfolding find
  keyed_of_find before device_id fresh v there = v.keyed device_id fresh there

  upsert-IsSane :
      (device_id : ℤ) (side : Side) (candidate : ℤ) (only : Bool) (before : Store) (fresh : Entry)
      → IsValid before.entries
      → find before device_id ≡ some fresh
      → passes side candidate only fresh ≡ true
      → IsSane device_id side candidate only before
          (upsert dumps flush (with_learned side candidate fresh) before).1
  unfolding passes
  upsert-IsSane device_id side candidate only before fresh v there passed =
      let written = upsert-IsWritten dumps flush before (with_learned side candidate fresh) in
      elim (Result-cases (upsert dumps flush (with_learned side candidate fresh) before).0) [
        | inr (x, bad) ↦ inl (rw bad at written)
        | inl (e, fine) ↦
            let now = rw fine at written in
            inr (
              fresh,
              record {
                there = there;
                recorded = λ k.
                    now k
                    ∙ ap
                        (λ (z : ℤ).
                          if eq_ℤ z k
                          then some (with_learned side candidate fresh)
                          else find before k)
                        (keyed_of_find before device_id fresh v there);
                bounds = effective_ct_bounds_learned side candidate fresh.options;
                ordered = ground arith;
                unclaimed = ground arith;
              },
            )
      ]

  -- On a valid list, an adoption changes nothing that can be looked up, or records one learned bound for the device
  -- asked about: then no other device changed, the range in force of that device moved to the
  -- candidate on that side and not on the other, its lower bound is still below its upper one, and
  -- if only an unclaimed side was to be written, it was unclaimed. The list stays valid.
  pub adopt-IsSane :
      (entry : Entry) (side : Side) (candidate : ℤ) (only : Bool) (world : World)
      → IsValid world.store.entries
      → IsSane entry.indigo_device_id side candidate only world.store
          (adopt dumps flush entry side candidate only world).store
        × IsValid (adopt dumps flush entry side candidate only world).store.entries
  unfolding adopt
  adopt-IsSane entry side candidate only world v =
      elim (Option-cases (find world.store entry.indigo_device_id)) [
        | inl absent ↦ rw (absent, adopt) (inl (λ k. refl), v)
        | inr (fresh, there) ↦
            rw (there, adopt)
              (elim (Bool-cases (passes side candidate only fresh)) [
                | inr refused ↦
                    rw
                      (adopt_fresh_refuses entry.indigo_device_id side candidate only fresh world
                        refused)
                      (inl (λ k. refl), v)
                | inl passed ↦
                    rw
                      (
                        adopt_fresh-passes entry.indigo_device_id side candidate only fresh world
                            passed,
                        store-saved,
                      )
                      (
                        upsert-IsSane entry.indigo_device_id side candidate only world.store fresh v
                            there passed,
                        (writes-IsValid dumps flush world.store v).0
                            (with_learned side candidate fresh),
                      )
              ])
      ]
