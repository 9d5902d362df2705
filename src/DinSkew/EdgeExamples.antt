-- ===== src/DinSkew/EdgeExamples.antt =====
-- scripts/din-skew.py: a file and a capture.
use Prim.Native.String.{String}
use text.Mathlib.Text.{◌==◌ as str_eq}
use esphome_snapcast.Base.{
  ℕ, ◌≡◌, refl, true, false, Option, some, none, List, [], ◌∷◌, ◌++◌, if◌then◌else◌,
}
use esphome_snapcast.Base.Int.{ℤ, pos, negsuc, ◌+ℤ◌, ◌-ℤ◌, ◌*ℤ◌}
use esphome_snapcast.Base.Float.{whole}
use esphome_snapcast.Analyser.CsvFile.Text.{fields, strip, split, lstrip, rstrip}
use esphome_snapcast.DinSkew.Resumed.{load_existing}
use esphome_snapcast.DinSkew.Shifted.{load_existing-shifted}
use esphome_snapcast.DinSkew.Schmitt.{
  levels_of, sample_of, samples_of, decided_from, accumulate, binarize,
}
use esphome_snapcast.DinSkew.Edges.{flips_from, flips_of}

-- A file with a row whose skew is torn.
abbrev digits : String → Option ℕ
digits s =
    if str_eq s "1"
    then some 1
    else if str_eq s "2"
    then some 2
    else if str_eq s "9"
    then some 9
    else none

load_existing-shifted_example :
    ((load_existing digits (some (("1,0,9" ∷ []) ++ "2,0,-" ∷ "9,0,1" ∷ []))).ts ≡ 1 ∷ 2 ∷ 9 ∷ [])
    × ((load_existing digits (some (("1,0,9" ∷ []) ++ "2,0,-" ∷ "9,0,1" ∷ []))).dts ≡ 9 ∷ 1 ∷ [])
unfolding fields strip split lstrip rstrip
load_existing-shifted_example =
    load_existing-shifted digits ("1,0,9" ∷ []) ("9,0,1" ∷ []) "2,0,-" 2 (tt, tt) refl (tt, tt)

-- A line that goes up and down again.
abbrev pulse : List ℤ
pulse = negsuc 4 ∷ pos 12 ∷ pos 30 ∷ negsuc 4 ∷ []

two_flips : flips_of whole (pos 1) (pos 0) (pos 10) pulse ≡ (1, true) ∷ (2, false) ∷ []
unfolding flips_of samples_of sample_of levels_of binarize decided_from accumulate flips_from ◌+ℤ◌
    ◌-ℤ◌ ◌*ℤ◌
two_flips = refl
