-- ===== src/Learning/Adopt/Accepted.antt =====
-- ct_learner.py, `_adopt`: a measurement inside the Matter domain that passes the guards is accepted
-- by the store's own validation, so it is recorded.
use indigo_matter.Prelude.{
  String, Bool, true, false, some, ℤ, ◌≤ℤ◌, ◌<ℤ◌, ◌≡◌, refl, arith, str_eq, if◌then◌else◌, eq_ℤ,
  ◌∙◌, List, ◌∷◌,
}
use indigo_matter.Python.{Json, int, Fields, ok, >>-eq-ok}
use indigo_matter.Python.Dict
use indigo_matter.Python.Dict.{get, has}
use indigo_matter.Python.Table.{int_key}
use indigo_matter.Ct.Bounds.{
  effective_ct_bounds, side, generic_min_mireds, generic_max_mireds, ct_roles, option_ct_min_mireds,
  option_ct_max_mireds, option_ct_learned_min_mireds, option_ct_learned_max_mireds,
}
use indigo_matter.Exports.Options.{
  elem, option_invert, option_state_key, option_state_invert, is_bool, is_nonempty_str,
  validate_key, invertible_roles, mappable_roles, validate_pair, validate_ct_bounds,
  validate_options,
}
use indigo_matter.Exports.Entry.{Entry}
use indigo_matter.Exports.Entry.RoundTrip.{IsLawful}
use indigo_matter.Exports.Store.{Store, flushed, find}
use indigo_matter.Exports.Store.Invariant.{IsValid}
use indigo_matter.Exports.Store.Lookup.{upsert-IsWritten, upsert_flushed}
use indigo_matter.Learning.Adopt.{Side, cool, warm, World, learned_key, moved, with_learned, adopt}
use indigo_matter.Learning.Adopt.Sane.{
  passes, passes-ordered, adopt_fresh-passes, store-saved, republished-saved, keyed_of_find,
}

no_seed_key_lem :
    (s : Side)
    → (str_eq (learned_key s) option_ct_min_mireds ≡ false)
      × (str_eq (learned_key s) option_ct_max_mireds ≡ false)
no_seed_key_lem cool = (refl, refl)
no_seed_key_lem warm = (refl, refl)

no_flag_key_lem :
    (s : Side)
    → (str_eq (learned_key s) option_invert ≡ false)
      × (str_eq (learned_key s) option_state_key ≡ false)
      × (str_eq (learned_key s) option_state_invert ≡ false)
no_flag_key_lem cool = (refl, refl, refl)
no_flag_key_lem warm = (refl, refl, refl)

-- A check reads its own keys only.
module _ (s : Side) (c : ℤ) (o : Fields) (role : String) where
  lookup_other :
      (key : String)
      → str_eq (learned_key s) key ≡ false
      → Dict.lookup key (Dict.insert (learned_key s) (int c) o) ≡ Dict.lookup key o
  lookup_other key other = rw (Dict.lookup-insert, other)

  validate_key_learned :
      (key : String) (has_type : Json → Bool) (roles : List String)
      → str_eq (learned_key s) key ≡ false
      → validate_key (Dict.insert (learned_key s) (int c) o) role key has_type roles
        ≡ validate_key o role key has_type roles
  unfolding validate_key
  validate_key_learned key has_type roles other = ground (arith, lookup_other key other)

  validate_pair_seeds :
      validate_pair
        (Dict.insert (learned_key s) (int c) o)
        role
        option_ct_min_mireds
        option_ct_max_mireds
        true
      ≡ validate_pair o role option_ct_min_mireds option_ct_max_mireds true
  unfolding validate_pair
  validate_pair_seeds = ground (
    arith,
    lookup_other option_ct_min_mireds (no_seed_key_lem s).0,
    lookup_other option_ct_max_mireds (no_seed_key_lem s).1,
  )

module _ (c : ℤ) (o : Fields) (role : String) where
  validate_pair_learned :
      (s : Side)
      → elem role ct_roles ≡ true
      → (generic_min_mireds ≤ℤ c) × (c ≤ℤ generic_max_mireds)
      → (moved s c (effective_ct_bounds (some o))).0 <ℤ (moved s c (effective_ct_bounds (some o))).1
      → validate_pair o role option_ct_learned_min_mireds option_ct_learned_max_mireds false ≡ ok tt
      → validate_pair
          (Dict.insert (learned_key s) (int c) o)
          role
          option_ct_learned_min_mireds
          option_ct_learned_max_mireds
          false
        ≡ ok tt
  unfolding validate_pair effective_ct_bounds side
  validate_pair_learned cool ct inside ordered h = ground (
    arith,
    Dict.lookup-insert option_ct_learned_min_mireds option_ct_learned_min_mireds (int c) o,
    Dict.lookup-insert option_ct_learned_min_mireds option_ct_learned_max_mireds (int c) o,
  )
  validate_pair_learned warm ct inside ordered h = ground (
    arith,
    Dict.lookup-insert option_ct_learned_max_mireds option_ct_learned_min_mireds (int c) o,
    Dict.lookup-insert option_ct_learned_max_mireds option_ct_learned_max_mireds (int c) o,
  )

  pub validate_options_learned :
      (s : Side)
      → elem role ct_roles ≡ true
      → (generic_min_mireds ≤ℤ c) × (c ≤ℤ generic_max_mireds)
      → (moved s c (effective_ct_bounds (some o))).0 <ℤ (moved s c (effective_ct_bounds (some o))).1
      → validate_options o role ≡ ok tt
      → validate_options (Dict.insert (learned_key s) (int c) o) role ≡ ok tt
  unfolding validate_options validate_ct_bounds
  validate_options_learned s ct inside ordered h =
      let (p₁, h₁) = >>-eq-ok (validate_key o role option_invert is_bool invertible_roles) _ h in
      let (p₂, h₂) =
        >>-eq-ok (validate_key o role option_state_key is_nonempty_str mappable_roles) _ h₁ in
      let (p₃, h₃) =
        >>-eq-ok (validate_key o role option_state_invert is_bool mappable_roles) _ h₂ in
      let (p₄, p₅) =
        >>-eq-ok (validate_pair o role option_ct_min_mireds option_ct_max_mireds true) _ h₃ in
      rw (
        validate_key_learned s c o role option_invert is_bool invertible_roles
            (no_flag_key_lem s).0,
        p₁,
        validate_key_learned s c o role option_state_key is_nonempty_str mappable_roles
            (no_flag_key_lem s).1,
        p₂,
        validate_key_learned s c o role option_state_invert is_bool mappable_roles
            (no_flag_key_lem s).2,
        p₃,
        validate_pair_seeds s c o role,
        p₄,
        validate_pair_learned s ct inside ordered p₅,
      )

find-IsLawful :
    (store : Store) (device_id : ℤ) (fresh : Entry)
    → IsValid store.entries
    → find store device_id ≡ some fresh
    → IsLawful fresh
unfolding find
find-IsLawful store device_id fresh v there = v.lawful device_id fresh there

if_eq_ℤ : {A : Type 0} (a k : ℤ) (x y : A) → a ≡ k → (if eq_ℤ a k then x else y) ≡ x
if_eq_ℤ a k x y h = ground arith

-- A candidate inside the Matter domain that passes the guards of an adoption, for a valid list
-- that holds the device with a colour-temperature role, is recorded as the learned bound of that
-- side, and the device is republished, when the flush of the prefs is done.
pub adopt-IsRecorded :
    (dumps : Json → String) (entry fresh : Entry) (s : Side) (candidate : ℤ) (only : Bool)
    (world : World)
    → IsValid world.store.entries
    → find world.store entry.indigo_device_id ≡ some fresh
    → elem fresh.role ct_roles ≡ true
    → (generic_min_mireds ≤ℤ candidate) × (candidate ≤ℤ generic_max_mireds)
    → passes s candidate only fresh ≡ true
    → (find (adopt dumps flushed entry s candidate only world).store entry.indigo_device_id
        ≡ some (with_learned s candidate fresh))
      × ((adopt dumps flushed entry s candidate only world).republished
          ≡ entry.indigo_device_id ∷ world.republished)
unfolding adopt
adopt-IsRecorded dumps entry fresh s candidate only world v there ct inside passed =
    let e = with_learned s candidate fresh in
    let lawful = find-IsLawful world.store entry.indigo_device_id fresh v there in
    let l : IsLawful (with_learned s candidate fresh) = record {
      published = lawful.published;
      options =
          validate_options_learned candidate fresh.options fresh.role s ct inside
            (passes-ordered s candidate only fresh passed) lawful.options;
    } in
    let fine = upsert_flushed dumps flushed world.store (with_learned s candidate fresh) l in
    let all_written = upsert-IsWritten dumps flushed world.store (with_learned s candidate fresh) in
    let written = rw fine at all_written in
    rw
      (
        there,
        adopt,
        adopt_fresh-passes dumps flushed entry.indigo_device_id s candidate only fresh world passed,
        store-saved dumps flushed,
      )
      (
        written entry.indigo_device_id
            ∙ if_eq_ℤ fresh.indigo_device_id entry.indigo_device_id _ _
                (keyed_of_find dumps flushed world.store entry.indigo_device_id fresh v there),
        republished-saved dumps flushed entry.indigo_device_id world.republished _ _ fine,
      )
