-- ===== src/Ct/Bounds/Wire.antt =====
-- What an export sends.
use indigo_matter.Prelude.{
  String, ◌≡◌, Option, none, some, ℤ, sym, ◌∙◌, Bool-cases, inl, inr, false, arith, str_eq, eq_iff,
  any, if◌then◌else◌,
}
use indigo_matter.Python.{int, Fields}
use indigo_matter.Python.Dict.{lookup, lookup-insert, lookup-without}
use indigo_matter.Ct.Bounds.{
  side, or_empty, generic_min_mireds, generic_max_mireds, effective_ct_bounds, has_stored_ct_bounds,
  wire_options, option_ct_min_mireds, option_ct_max_mireds, option_ct_learned_min_mireds,
  option_ct_learned_max_mireds, stored_keys,
}

-- Each key of the wire options: the two bounds in force, or the stored option of another name.
pub lookup-wire_options :
    (o : Option Fields) (k : String)
    → lookup k (wire_options o) ≡ (
        if any (str_eq k) stored_keys
        then (if has_stored_ct_bounds o
            then (if str_eq option_ct_max_mireds k
                then some (int (effective_ct_bounds o).1)
                else if str_eq option_ct_min_mireds k
                then some (int (effective_ct_bounds o).0)
                else none)
            else none)
        else lookup k (or_empty o))
unfolding wire_options
lookup-wire_options o k = elim (Bool-cases (has_stored_ct_bounds o)) [
  | inl stored ↦ rw stored (
      simp (lookup-insert, lookup-without)
        (ground (
          arith,
          eq_iff option_ct_min_mireds k,
          eq_iff option_ct_max_mireds k,
          eq_iff k option_ct_min_mireds,
          eq_iff k option_ct_max_mireds,
        )))
  | inr unstored ↦ rw unstored (simp lookup-without)
]

module _ (d : Fields) where
  effective_of_pair :
      (a b : ℤ)
      → lookup option_ct_learned_min_mireds d ≡ none
      → lookup option_ct_learned_max_mireds d ≡ none
      → lookup option_ct_min_mireds d ≡ some (int a)
      → lookup option_ct_max_mireds d ≡ some (int b)
      → effective_ct_bounds (some d) ≡ (a, b)
  unfolding effective_ct_bounds side
  effective_of_pair a b p q r s = ground arith

  effective_of_none :
      lookup option_ct_learned_min_mireds d ≡ none
      → lookup option_ct_learned_max_mireds d ≡ none
      → lookup option_ct_min_mireds d ≡ none
      → lookup option_ct_max_mireds d ≡ none
      → effective_ct_bounds (some d) ≡ (generic_min_mireds, generic_max_mireds)
  unfolding effective_ct_bounds side
  effective_of_none p q r s = ground arith

-- With nothing stored the generic domain is in force.
effective_unstored :
    (o : Option Fields)
    → has_stored_ct_bounds o ≡ false
    → effective_ct_bounds o ≡ (generic_min_mireds, generic_max_mireds)
unfolding has_stored_ct_bounds effective_ct_bounds side
effective_unstored o h = ground arith

-- Reading the bounds off what was sent gives the bounds that are in force in the plugin, whether
-- they were learned, seeded, or neither.
pub effective_ct_bounds-wire_options :
    (o : Option Fields) → effective_ct_bounds (some (wire_options o)) ≡ effective_ct_bounds o
effective_ct_bounds-wire_options o = elim (Bool-cases (has_stored_ct_bounds o)) [
  | inl stored ↦
      effective_of_pair (wire_options o) _ _
        (rw (lookup-wire_options o option_ct_learned_min_mireds, stored))
        (rw (lookup-wire_options o option_ct_learned_max_mireds, stored))
        (rw (lookup-wire_options o option_ct_min_mireds, stored))
        (rw (lookup-wire_options o option_ct_max_mireds, stored))
  | inr unstored ↦
      effective_of_none (wire_options o)
        (rw (lookup-wire_options o option_ct_learned_min_mireds, unstored))
        (rw (lookup-wire_options o option_ct_learned_max_mireds, unstored))
        (rw (lookup-wire_options o option_ct_min_mireds, unstored))
        (rw (lookup-wire_options o option_ct_max_mireds, unstored))
      ∙ sym (effective_unstored o unstored)
]
