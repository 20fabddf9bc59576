-- ===== src/Ct/Bounds/Precedence.antt =====
-- Where each effective bound comes from.
use indigo_matter.Prelude.{◌≡◌, refl, String, false, Option, ℤ, arith}
use indigo_matter.Python.{Json, int, Fields}
use indigo_matter.Python.Dict.{get}
use indigo_matter.Ct.Bounds.{
  is_valid_ct_bound, side, Source, learned, seed, generic, generic_min_mireds, generic_max_mireds,
  side_source, effective_ct_sources, effective_ct_bounds, or_empty, option_ct_min_mireds,
  option_ct_max_mireds, option_ct_learned_min_mireds, option_ct_learned_max_mireds,
}

-- What the value of one side is when its source is known.
abbrev pub IsExplained : Fields → String → String → ℤ → Source → ℤ → Type 0
IsExplained o learned_key seed_key default s v =
    (s ≡ learned → get learned_key o ≡ int v)
    × (s ≡ seed → (is_valid_ct_bound (get learned_key o) ≡ false) × (get seed_key o ≡ int v))
    × (s ≡ generic
        → (is_valid_ct_bound (get learned_key o) ≡ false)
          × (is_valid_ct_bound (get seed_key o) ≡ false)
          × (v ≡ default))

side-IsExplained :
    (a b : Json) (o : Fields) (learned_key seed_key : String) (default : ℤ)
    → get learned_key o ≡ a
    → get seed_key o ≡ b
    → IsExplained o learned_key seed_key default
        (side_source o learned_key seed_key)
        (side o learned_key seed_key default)
unfolding side side_source
side-IsExplained (int a) b o learned_key seed_key default p q = rw p (ground arith)
side-IsExplained _ (int b) o learned_key seed_key default p q = rw (p, q) (ground arith)
side-IsExplained _ _ o learned_key seed_key default p q = rw (p, q) (ground arith)

-- On each side the reported source explains the bound in force: `learned` means that the learned
-- key holds it, `seed` that the learned key holds no integer and the seed key holds it, `generic`
-- that neither key holds an integer and it is the domain's own edge.
pub effective_ct_bounds-IsExplained :
    (options : Option Fields)
    → let o = or_empty options in
      IsExplained o option_ct_learned_min_mireds option_ct_min_mireds generic_min_mireds
        (effective_ct_sources options).0
        (effective_ct_bounds options).0
      × IsExplained o option_ct_learned_max_mireds option_ct_max_mireds generic_max_mireds
          (effective_ct_sources options).1
          (effective_ct_bounds options).1
unfolding effective_ct_sources effective_ct_bounds
effective_ct_bounds-IsExplained options = (
  side-IsExplained _ _ (or_empty options) _ _ _ refl refl,
  side-IsExplained _ _ (or_empty options) _ _ _ refl refl,
)
