-- ===== src/Learning/Observe/Examples.antt =====
-- ct_learner.py: readings of the lamp.
use indigo_matter.Prelude.{ℕ, false, none, some, [], ◌∷◌, pos, ◌-ℤ◌, ◌≡◌, ◌≢◌, refl, arith}
use indigo_matter.Python.Table
use indigo_matter.Python.Table.{int_key}
use indigo_matter.Python.Dict
use indigo_matter.Ct.Bounds.{effective_ct_bounds, ct_roles}
use indigo_matter.Exports.Entry.Examples.{lamp}
use indigo_matter.Exports.Store.{flushed}
use indigo_matter.Exports.Store.Examples.{dumps}
use indigo_matter.Learning.Adopt.{warm, adopt}
use indigo_matter.Learning.Adopt.Examples.{world, lamp_ct}
use indigo_matter.Learning.Observe.{Learner, side_of, observe}
use indigo_matter.Learning.Observe.Evidence.{IsEvident, observe-IsEvident}
use indigo_matter.Learning.Observe.Dispatches.{Reading, IsInside, observe_all, observe_all_unmoved}
use indigo_matter.Learning.Observe.Confirmed.{answered, answered-answered}

-- The lamp was asked for 426 mireds, and a streak at 400 stands.
abbrev learner : Learner
learner = record {
  commanded = (pos 17, record { mireds = pos 426; at = 9000 }) ∷ [];
  pending =
      (pos 17, record { side = warm; mireds = pos 400; commanded_at = 1000; started_at = 2000 })
      ∷ [];
}

-- The lamp was asked, and no streak stands.
abbrev asked : Learner
asked = record { commanded = (pos 17, record { mireds = pos 426; at = 9000 }) ∷ []; pending = [] }

abbrev echo : Reading
echo = record { entry = lamp; mireds = pos 400; now = 10000 }

lamp_bounds : effective_ct_bounds (some lamp.options) ≡ (pos 215, pos 500)
unfolding effective_ct_bounds indigo_matter.Ct.Bounds.side Dict.lookup
lamp_bounds = refl

echo-IsInside : IsInside echo
echo-IsInside = rw lamp_bounds (omega arith, omega arith)

observe-IsEvident_example :
    IsEvident dumps flushed lamp
      (pos 400)
      10000
      learner
      world
      (Table.lookup (pos 17) learner.commanded)
      (Table.lookup (pos 17) learner.pending)
      (observe dumps flushed lamp (pos 400) 10000 (learner, world))
observe-IsEvident_example =
    observe-IsEvident dumps flushed lamp (pos 400) 10000 learner world echo-IsInside.0
      echo-IsInside.1

observe_all_unmoved_example :
    (observe_all dumps flushed (echo ∷ echo ∷ []) (asked, world)).1 ≡ world
observe_all_unmoved_example =
    observe_all_unmoved dumps flushed (echo ∷ echo ∷ []) asked world refl
      (echo-IsInside, (echo-IsInside, tt))

times_differ : ◌≢◌ {A = ℕ} 9000 1000
times_differ h = omega arith

no_streak : Table.lookup (pos 17) asked.pending ≡ none
unfolding Table.lookup
no_streak = refl

answered-answered_example :
    (answered dumps flushed lamp
      (pos 426)
      (pos 400)
      9000
      10000
      (answered dumps flushed lamp (pos 426) (pos 400) 1000 2000 (asked, world))).1
    ≡ adopt dumps flushed lamp (side_of (pos 400 -ℤ pos 426)) (pos 400) false world
answered-answered_example =
    answered-answered dumps flushed lamp (pos 426) (pos 400) 1000 2000 9000 10000 asked world
      lamp_ct echo-IsInside (omega arith) no_streak (omega arith) (omega arith) times_differ
      (omega arith)
