-- ===== src/Learning/Adopt/Examples.antt =====
-- ct_learner.py: measurements of the lamp.
use indigo_matter.Prelude.{true, false, some, [], ◌∷◌, pos, ◌≡◌, refl, arith}
use indigo_matter.Python.Table
use indigo_matter.Python.Dict
use indigo_matter.Ct.Bounds.{effective_ct_bounds, ct_roles}
use indigo_matter.Exports.Options.{elem}
use indigo_matter.Exports.Entry.Examples.{lamp}
use indigo_matter.Exports.Store.{flushed, failed, find}
use indigo_matter.Exports.Store.Invariant.{IsValid}
use indigo_matter.Exports.Store.Examples.{lamps-IsValid, before, dumps}
use indigo_matter.Learning.Adopt.{warm, World, with_learned, adopt}
use indigo_matter.Learning.Adopt.Sane.{IsSane, passes, adopt-IsSane}
use indigo_matter.Learning.Adopt.Accepted.{adopt-IsRecorded}

abbrev pub world : World
world = record { store = before; republished = [] }

lamp_found : find before (pos 17) ≡ some lamp
unfolding find Table.lookup
lamp_found = refl

pub lamp_ct : elem lamp.role ct_roles ≡ true
unfolding elem
lamp_ct = refl

warm_passes : passes warm (pos 400) false lamp ≡ true
unfolding passes effective_ct_bounds indigo_matter.Ct.Bounds.side Dict.lookup
warm_passes = refl

adopt-IsSane_example :
    IsSane
      (pos 17)
      warm
      (pos 400)
      false
      before
      (adopt dumps failed lamp warm (pos 400) false world).store
    × IsValid (adopt dumps failed lamp warm (pos 400) false world).store.entries
adopt-IsSane_example = adopt-IsSane dumps failed lamp warm (pos 400) false world lamps-IsValid

adopt-IsRecorded_example :
    (find (adopt dumps flushed lamp warm (pos 400) false world).store (pos 17)
      ≡ some (with_learned warm (pos 400) lamp))
    × ((adopt dumps flushed lamp warm (pos 400) false world).republished ≡ pos 17 ∷ [])
adopt-IsRecorded_example =
    adopt-IsRecorded dumps lamp lamp warm (pos 400) false world lamps-IsValid lamp_found lamp_ct
      (omega arith, omega arith) warm_passes
