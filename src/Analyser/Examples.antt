-- ===== src/Analyser/Examples.antt =====
-- scripts/i2s-skew.py: the analyser's parts at concrete inputs.
use Prim.Native.String.{String}
use esphome_snapcast.Base.{ℕ, ◌≡◌, none, some, List, [], ◌∷◌, arith, ltb, length, ap}
use esphome_snapcast.Analyser.Failures.{CaptureFailures, new_failures, is_last}
use esphome_snapcast.Analyser.FailureRuns.{
  goes_on, fail_all, same_failures, reached, default_marks, fail_all-same_failures, Changing,
  fail_all-Changing,
}

fail_all-same_failures_example :
    (goes_on (fail_all (same_failures "no samples" (5 ∷ 6 ∷ 8 ∷ [])) (new_failures (some 3))).0
      ≡ ltb 3 3)
    × ((fail_all (same_failures "no samples" (5 ∷ 6 ∷ 8 ∷ [])) (new_failures none)).1
        ≡ reached 3 default_marks)
fail_all-same_failures_example = fail_all-same_failures "no samples" (5 ∷ 6 ∷ 8 ∷ []) (some 3)

-- A message that holds a count differs each time.
abbrev varying : List (String × ℕ)
varying = ("got 100", 1) ∷ ("got 101", 2) ∷ ("got 100", 3) ∷ []

varying-Changing : Changing (new_failures none).last varying
unfolding new_failures
varying-Changing =
    (λ e. cc, ((λ e. cc (ap (is_last "got 101") e)), ((λ e. cc (ap (is_last "got 100") e)), tt)))

fail_all-Changing_example :
    (f' : CaptureFailures) × (fail_all varying (new_failures none) ≡ (some f', length varying))
fail_all-Changing_example =
    fail_all-Changing varying (new_failures none) (unfold new_failures in omega arith)
      varying-Changing
