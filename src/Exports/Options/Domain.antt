-- ===== src/Exports/Options/Domain.antt =====
-- What a validated set of options says about the bounds in force.
use indigo_matter.Prelude.{
  String, Bool, true, false, is_some, Option, none, some, ℤ, ◌≤ℤ◌, ◌<ℤ◌, ◌≡◌, arith,
}
use indigo_matter.Python.{Fields, ok, >>-eq-ok}
use indigo_matter.Python.Dict.{get}
use indigo_matter.Ct.Bounds.{
  as_int, is_valid_ct_bound, side, effective_ct_bounds, generic_min_mireds, generic_max_mireds,
  option_ct_min_mireds, option_ct_max_mireds, option_ct_learned_min_mireds,
  option_ct_learned_max_mireds,
}
use indigo_matter.Exports.Options.{
  option_invert, option_state_key, option_state_invert, is_bool, is_nonempty_str, validate_key,
  invertible_roles, mappable_roles, validate_pair, validate_ct_bounds, validate_options,
}

abbrev IsInDomain : Option ℤ → Type 0
IsInDomain none = Unit
IsInDomain (some v) = (generic_min_mireds ≤ℤ v) × (v ≤ℤ generic_max_mireds)

abbrev IsOrdered : Option ℤ → Option ℤ → Type 0
IsOrdered (some lo) (some hi) = lo <ℤ hi
IsOrdered _ _ = Unit

-- What one validated pair is.
record IsPair (lo hi : Option ℤ) (seed_pair : Bool) : Type 0 where
  low : IsInDomain lo
  high : IsInDomain hi
  ordered : IsOrdered lo hi
  complete : seed_pair ≡ true → is_some lo ≡ is_some hi

module _ (options : Fields) (role min_key max_key : String) (seed_pair : Bool) where
  validate_pair-IsPair :
      validate_pair options role min_key max_key seed_pair ≡ ok tt
      → IsPair (as_int (get min_key options)) (as_int (get max_key options)) seed_pair
  unfolding validate_pair
  validate_pair-IsPair h = ground arith

-- The bound of one side, of the learned and the seeded value.
abbrev resolve : Option ℤ → Option ℤ → ℤ → ℤ
resolve (some v) _ generic = v
resolve none (some v) generic = v
resolve none none generic = generic

side-resolve :
    (o : Fields) (learned_key seed_key : String) (generic : ℤ)
    → side o learned_key seed_key generic
      ≡ resolve (as_int (get learned_key o)) (as_int (get seed_key o)) generic
unfolding side
side-resolve o learned_key seed_key generic = ground arith

-- The two bounds lie in the domain, and where both or neither of them is learned they are a range.
pub record IsEffective (learned_lo learned_hi : Bool) (lo hi : ℤ) : Type 0 where
  pub low : (generic_min_mireds ≤ℤ lo) × (lo ≤ℤ generic_max_mireds)
  pub high : (generic_min_mireds ≤ℤ hi) × (hi ≤ℤ generic_max_mireds)
  pub ordered : learned_lo ≡ learned_hi → lo <ℤ hi

resolve-IsEffective :
    (a b c d : Option ℤ)
    → IsPair c d true
    → IsPair a b false
    → IsEffective
        (is_some a)
        (is_some b)
        (resolve a c generic_min_mireds)
        (resolve b d generic_max_mireds)
resolve-IsEffective a b c d seeds learned = ground arith

validate_ct_bounds-IsPair :
    (o : Fields) (role : String)
    → validate_ct_bounds o role ≡ ok tt
    → IsPair (as_int (get option_ct_min_mireds o)) (as_int (get option_ct_max_mireds o)) true
      × IsPair
          (as_int (get option_ct_learned_min_mireds o))
          (as_int (get option_ct_learned_max_mireds o))
          false
unfolding validate_ct_bounds
validate_ct_bounds-IsPair o role h =
    let (seeds, learned) =
      >>-eq-ok (validate_pair o role option_ct_min_mireds option_ct_max_mireds true) _ h in
    (
      validate_pair-IsPair o role option_ct_min_mireds option_ct_max_mireds true seeds,
      validate_pair-IsPair o role option_ct_learned_min_mireds option_ct_learned_max_mireds false
          learned,
    )

pub validate_ct_bounds_of_options :
    (o : Fields) (role : String)
    → validate_options o role ≡ ok tt
    → validate_ct_bounds o role ≡ ok tt
unfolding validate_options
validate_ct_bounds_of_options o role h =
    let (_, h₁) = >>-eq-ok (validate_key o role option_invert is_bool invertible_roles) _ h in
    let (_, h₂) =
      >>-eq-ok (validate_key o role option_state_key is_nonempty_str mappable_roles) _ h₁ in
    (>>-eq-ok (validate_key o role option_state_invert is_bool mappable_roles) _ h₂).1

-- Options that the store accepts put both effective bounds in 153 to 500 mireds, and the lower
-- bound is below the upper one if both sides are learned or neither side is.
pub effective_ct_bounds-IsEffective :
    (o : Fields) (role : String)
    → validate_options o role ≡ ok tt
    → IsEffective
        (is_valid_ct_bound (get option_ct_learned_min_mireds o))
        (is_valid_ct_bound (get option_ct_learned_max_mireds o))
        (effective_ct_bounds (some o)).0
        (effective_ct_bounds (some o)).1
unfolding effective_ct_bounds
effective_ct_bounds-IsEffective o role h =
    let (seeds, learned) =
      validate_ct_bounds-IsPair o role (validate_ct_bounds_of_options o role h) in
    rw
      (
        side-resolve o option_ct_learned_min_mireds option_ct_min_mireds generic_min_mireds,
        side-resolve o option_ct_learned_max_mireds option_ct_max_mireds generic_max_mireds,
      )
      (resolve-IsEffective _ _ _ _ seeds learned)
