-- ===== src/Analyser/DeviceClock/Examples.antt =====
-- scripts/i2s-skew.py: the clocks of the boards at concrete inputs.
use esphome_snapcast.Base.{◌≡◌, refl, none, some, List, [], ◌∷◌, map, concat}
use esphome_snapcast.Base.Int.{pos, ◌+ℤ◌, ◌-ℤ◌}
use esphome_snapcast.Analyser.Series.Gaps.{sorted}
use esphome_snapcast.Analyser.DeviceClock.Place.{
  Row, device_anchor, epochs_from, diffs_of, median, place_epoch, place_epochs, place_device_times,
}
use esphome_snapcast.Analyser.DeviceClock.Epochs.{AllRising, epochs_from-AllRising}
use esphome_snapcast.Analyser.DeviceClock.Placement.{
  is_there, stamped, count, place_device_times-stamped,
}

-- The board reboots behind the second row.
abbrev rows : List Row
rows =
    record { host = pos 1000; dev = some 100 }
    ∷ record { host = pos 1100; dev = none }
    ∷ record { host = pos 1200; dev = some 20 }
    ∷ []

placed_by_boot : (place_device_times rows).0 ≡ some (pos 1000) ∷ none ∷ some (pos 1200) ∷ []
unfolding place_device_times place_epochs place_epoch epochs_from diffs_of median sorted ◌-ℤ◌ ◌+ℤ◌
placed_by_boot = refl

place_device_times-stamped_example :
    (map is_there (place_device_times rows).0 ≡ stamped rows)
    × ((place_device_times rows).1.1 ≡ count (stamped rows))
place_device_times-stamped_example = place_device_times-stamped rows

epochs_from-AllRising_example :
    (concat (epochs_from none [] rows) ≡ rows) × AllRising (epochs_from none [] rows)
epochs_from-AllRising_example = epochs_from-AllRising rows

one_anchor :
    device_anchor ((pos 1100, pos 100) ∷ (pos 1207, pos 200) ∷ (pos 1301, pos 300) ∷ [])
    ≡ (some (pos 1001), (some (pos 1), 3))
unfolding device_anchor median sorted ◌-ℤ◌
one_anchor = refl
