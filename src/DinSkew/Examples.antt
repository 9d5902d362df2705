-- ===== src/DinSkew/Examples.antt =====
-- scripts/din-skew.py at concrete inputs.
use esphome_snapcast.Base.{
  ℕ, ◌≡◌, refl, true, false, none, some, List, [], ◌∷◌, ◌++◌, arith, map, replicate, get_or,
}
use esphome_snapcast.Base.Int.{ℤ, pos, negsuc, ◌+ℤ◌, ◌-ℤ◌, ◌*ℤ◌}
use esphome_snapcast.Base.Float.{whole}
use esphome_snapcast.DinSkew.Schmitt.{Sample, decided_from, accumulate, binarize}
use esphome_snapcast.DinSkew.Levels.{schmitt, binarize-schmitt}
use esphome_snapcast.DinSkew.BitPhase.{
  lower, raise, settle, unwrapped, unwrap_from, unwrap_bitphase,
}
use esphome_snapcast.DinSkew.Unwrapped.{unwrap_bitphase-recovers}
use esphome_snapcast.DinSkew.Blocks.{
  Numpy, Block, sum, array_equal, around, on_line, line_of, refine, fitted, consensus, usable,
  xcorr_blocks,
}
use esphome_snapcast.DinSkew.Measure.{Mode, Gates, Session, Capture, session_rounds}
use esphome_snapcast.DinSkew.Sessions.{IsTooShort, session_rounds-short}

-- Below, within, above, within, below the band.
abbrev swing : List Sample
swing =
    record { above = false; below = true }
    ∷ record { above = false; below = false }
    ∷ record { above = true; below = false }
    ∷ record { above = false; below = false }
    ∷ record { above = false; below = true }
    ∷ []

holds_within : binarize swing ≡ false ∷ false ∷ true ∷ true ∷ false ∷ []
unfolding binarize decided_from accumulate
holds_within = refl

binarize-schmitt_example : binarize swing ≡ schmitt false swing
binarize-schmitt_example = binarize-schmitt swing

-- 3, 6 and 10 of a period of 10 come as 3, -4 and 0.
unwraps :
    unwrap_bitphase (some (pos 3) ∷ some (negsuc 3) ∷ none ∷ some (pos 0) ∷ []) (some 10)
    ≡ some (pos 3) ∷ some (pos 6) ∷ none ∷ some (pos 10) ∷ []
unfolding unwrap_bitphase unwrap_from unwrapped settle lower raise ◌+ℤ◌ ◌-ℤ◌
unwraps = refl

unwrap_bitphase-recovers_example :
    unwrap_bitphase (map (λ x. some x) (pos 3 ∷ negsuc 3 ∷ pos 0 ∷ [])) (some 10)
    ≡ map (λ x. some (x +ℤ (pos 3 -ℤ pos 3))) (pos 3 ∷ pos 6 ∷ pos 10 ∷ [])
unfolding ◌+ℤ◌ ◌-ℤ◌
unwrap_bitphase-recovers_example =
    unwrap_bitphase-recovers 9 (pos 3) (pos 3) (negsuc 3 ∷ pos 0 ∷ []) (pos 6 ∷ pos 10 ∷ [])
      ((0, 0, refl), ((1, 0, refl), ((1, 0, refl), tt))) (omega arith)

-- The first of the values stands for their median and their mean, and a line is level.
abbrev first : List ℤ → ℤ
first xs = get_or xs 0 (pos 0)

abbrev level : Numpy whole
level = record {
  median = first;
  mean = first;
  fit = λ points. (pos 0, first (map (λ (p : ℤ × ℤ). p.1) points));
  spreads = λ ts. true;
  largest = first;
  million = pos 1_000_000;
  min_coef = pos 12;
  alias_window = pos 150;
  cluster_tol = pos 8;
}

abbrev block : ℕ → ℕ → ℕ → Block whole
block time lag coef = record { time = pos time; lag = pos lag; coef = pos coef }

-- The third block has locked onto an alias, and the fourth is too weak.
abbrev blocks : List (Block whole)
blocks =
    block 1 30 28
    ∷ block 2 31 27
    ∷ block 3 343 28
    ∷ block 4 9 5
    ∷ block 5 33 28
    ∷ block 6 34 28
    ∷ []

outvoted :
    xcorr_blocks whole level none blocks
    ≡ record { lag = some (pos 30); coef = pos 28; agree = pos 4; ppm = none }
unfolding xcorr_blocks usable consensus around fitted refine on_line line_of sum array_equal ◌+ℤ◌
    ◌-ℤ◌ ◌*ℤ◌
outvoted = refl

abbrev gates : Gates whole
gates = record {
  mode = Mode.xcorr;
  limit = pos 2280;
  min_quality = pos 12;
  min_agreement = pos 3;
  ns_per_sample = pos 20;
}

abbrev start : Session whole
start = record { ts = []; dts = []; ppms = []; prefer = none; checked = false; n = 0 }

abbrev pair : List (Block whole)
pair = block 1 30 28 ∷ block 2 31 28 ∷ []

abbrev short : ℕ → Capture whole
short elapsed = record {
  elapsed = pos elapsed;
  correlate = some (λ prefer. xcorr_blocks whole level prefer pair);
  period = none;
}

two : (elapsed : ℕ) → IsTooShort whole level 2 (short elapsed)
two elapsed = record {
  correlate = λ prefer. xcorr_blocks whole level prefer pair;
  runs = refl;
  blocks = λ prefer. (pair, refl, refl);
}

session_rounds-short_example :
    let behind = session_rounds whole gates 0 start (short 0 ∷ short 5 ∷ []) in
    (behind.dts ≡ [] ++ replicate 2 none) × (behind.ppms ≡ [] ++ replicate 2 (pos 2))
session_rounds-short_example =
    session_rounds-short whole level 2 gates start (short 0 ∷ short 5 ∷ []) (omega arith)
      (two 0, (two 5, tt))
