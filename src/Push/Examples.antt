-- ===== src/Push/Examples.antt =====
-- A colour light, and the theorem at it.
use indigo_matter.Prelude.{List, true, false, some, [], ◌∷◌, ◌≡◌, refl, pos}
use indigo_matter.Python.Table
use indigo_matter.Python.Table.{text_key}
use indigo_matter.Push.{
  Value, number, States, extended_color_light, color_temperature_light, Export, Event, specified,
  reads, step, run, device_updated, diff_from, changed, is_changed, is_beyond, differs, sent,
  pushed, received, sends, note_pushed, updated, evicted,
}
use indigo_matter.Push.Told.{IsNear, unknown, reading-IsNear}

abbrev red : States
red = ("hue", number (pos 0)) ∷ ("saturation", number (pos 90)) ∷ []

abbrev orange : States
orange = ("hue", number (pos 30)) ∷ ("saturation", number (pos 90)) ∷ []

abbrev told_red : Export
told_red = record { snapshot = red; node = red }

-- A change of hue alone drops the saturation from the snapshot, so the same reading is pushed again,
-- which drops the hue.
hue_evicts_saturation :
    device_updated extended_color_light true orange told_red
    ≡ record { snapshot = ("hue", number (pos 30)) ∷ []; node = orange }
unfolding device_updated diff_from changed is_changed is_beyond differs sent pushed received
    note_pushed updated evicted Table.lookup Table.insert Table.remove
hue_evicts_saturation = refl

same_reading_is_pushed :
    (device_updated extended_color_light true orange
      (record { snapshot = ("hue", number (pos 30)) ∷ []; node = orange })).snapshot
    ≡ ("saturation", number (pos 90)) ∷ []
unfolding device_updated diff_from changed is_changed is_beyond differs sent pushed received
    note_pushed updated evicted Table.lookup Table.insert Table.remove
same_reading_is_pushed = refl

abbrev commanded_ct : States
commanded_ct = ("colorTempMireds", number (pos 426)) ∷ []

-- The lamp's own limit, within 30 mireds of what it was told.
abbrev clamped : States
clamped = ("colorTempMireds", number (pos 400)) ∷ []

-- A push that is dropped while the socket is down, before the attach.
abbrev dropped : List Event
dropped = sends false orange ∷ []

reading-IsNear_example :
    (p : Value) × (Table.lookup "colorTempMireds"
        (step color_temperature_light (reads true clamped) (
          run color_temperature_light (sends true commanded_ct ∷ []) (
            step color_temperature_light
              (specified true red)
              (run color_temperature_light dropped unknown)))).node
      ≡ some p)
    × IsNear (some 30) p (number (pos 400))
unfolding Table.lookup
reading-IsNear_example =
    reading-IsNear color_temperature_light dropped red (sends true commanded_ct ∷ []) clamped
      "colorTempMireds" (number (pos 400)) (refl, (refl, tt)) ((refl, (refl, tt)), tt) (refl, tt)
      refl
