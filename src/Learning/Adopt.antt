-- ===== src/Learning/Adopt.antt =====
-- ct_learner.py, `_adopt`: one side's candidate becomes the learned bound of a device, if it says
-- anything new. The store is re-read, so the caller's entry gives the device id alone. A call of
-- `republish` is recorded in a list, newest first; what it raises is absorbed by the caller.
pub mod Sane
pub mod Accepted
pub mod Examples
use indigo_matter.Prelude.{
  String, Bool, true, false, ◌&&◌, ◌||◌, Option, none, some, List, ◌∷◌, ℤ, pos, eq_ℤ, leb_ℤ,
  if◌then◌else◌,
}
use indigo_matter.Python.{Json, bool, int, float, finite, Result, ok, err}
use indigo_matter.Python.Dict
use indigo_matter.Python.Dict.{get}
use indigo_matter.Ct.Bounds.{
  effective_ct_bounds, is_valid_ct_bound, option_ct_min_mireds, option_ct_max_mireds,
  option_ct_learned_min_mireds, option_ct_learned_max_mireds,
}
use indigo_matter.Exports.Entry.{Entry}
use indigo_matter.Exports.Store.{Store, Flush, find, upsert}

-- "min", the cool floor, and "max", the warm ceiling.
pub data Side : Type 0 where
  cool warm : Side

pub record World : Type 0 where
  pub store : Store
  pub republished : List ℤ

abbrev pub learned_key : Side → String
learned_key cool = option_ct_learned_min_mireds
learned_key warm = option_ct_learned_max_mireds

abbrev pub seed_key : Side → String
seed_key cool = option_ct_min_mireds
seed_key warm = option_ct_max_mireds

-- `(new_min, new_max)`
abbrev pub moved : Side → ℤ → ℤ × ℤ → ℤ × ℤ
moved cool candidate (lo, hi) = (candidate, hi)
moved warm candidate (lo, hi) = (lo, candidate)

-- `value == candidate` for an `int` candidate.
abbrev pub equals_int : Json → ℤ → Bool
equals_int (int z) candidate = eq_ℤ z candidate
equals_int (bool b) candidate = eq_ℤ (pos (if b then 1 else 0)) candidate
equals_int (float (finite z whole)) candidate = whole && eq_ℤ z candidate
equals_int _ candidate = false

-- Does the side hold a measurement or a declaration?
abbrev pub is_claimed : Side → Entry → Bool
is_claimed side fresh =
    is_valid_ct_bound (get (learned_key side) fresh.options)
    || is_valid_ct_bound (get (seed_key side) fresh.options)

abbrev pub with_learned : Side → ℤ → Entry → Entry
with_learned side candidate fresh = record fresh {
  options = Dict.insert (learned_key side) (int candidate) fresh.options;
}

-- What an upsert leaves: where it succeeded the device is republished.
pub saved : ℤ → List ℤ → Result Entry × Store → World
saved device_id republished (ok _, store) = record {
  store = store;
  republished = device_id ∷ republished;
}
saved device_id republished (err _, store) = record { store = store; republished = republished }

module _ (dumps : Json → String) (flush : Flush) where
  pub adopt_fresh : ℤ → Side → ℤ → Bool → Entry → World → World
  adopt_fresh device_id side candidate only_if_unclaimed fresh world =
      let (new_min, new_max) = moved side candidate (effective_ct_bounds (some fresh.options)) in
      if only_if_unclaimed && is_claimed side fresh
      then world
      else if equals_int (get (learned_key side) fresh.options) candidate
      then world
      else if leb_ℤ new_max new_min
      then world
      else saved device_id world.republished
          (upsert dumps flush (with_learned side candidate fresh) world.store)

  unfoldable pub adopt : Entry → Side → ℤ → Bool → World → World
  adopt entry side candidate only_if_unclaimed world =
      elim (find world.store entry.indigo_device_id) [
        | none ↦ world
        | some fresh ↦
            adopt_fresh entry.indigo_device_id side candidate only_if_unclaimed fresh world
      ]
