-- ===== src/SyncDelta/Examples.antt =====
-- scripts/sync-delta.py: logs over midnight.
use esphome_snapcast.Base.{ℕ, ◌≡◌, refl, none, some, [], ◌∷◌, arith, map}
use esphome_snapcast.Base.Int.{pos}
use esphome_snapcast.SyncDelta.Reports.{Report, time_of, parse_from, parse}
use esphome_snapcast.SyncDelta.Unwrapped.{lines_of, reports_since, parse-since}

abbrev report_at : ℕ → ℕ → ℕ → ℕ → Report
report_at hours minutes seconds ms = record {
  hours = hours;
  minutes = minutes;
  seconds = seconds;
  ms = some (ms, 3);
  median = pos 7;
  depth = some (pos 250);
}

abbrev late : Report
late = report_at 23 59 59 900

abbrev early : Report
early = report_at 0 0 3 200

parse-since_example :
    (parse (
      lines_of (
        some (record { day = 4; report = late })
        ∷ none
        ∷ some (record { day = 5; report = early })
        ∷ []))).0
    ≡ reports_since 4 (
        some (record { day = 4; report = late })
        ∷ none
        ∷ some (record { day = 5; report = early })
        ∷ [])
unfolding time_of
parse-since_example =
    parse-since (record { day = 4; report = late })
      (none ∷ some (record { day = 5; report = early }) ∷ []) (omega arith)
      ((omega arith, omega arith, omega arith, omega arith), tt)

-- A line that is late by a tenth of a second puts all that is behind it on the next day.
late_over_midnight :
    map
      (λ r. r.0)
      (parse (
        some late ∷ some (report_at 0 0 0 100) ∷ some (report_at 23 59 59 950) ∷ some early ∷ [])).0
    ≡ 86_399_900 ∷ 86_400_100 ∷ 172_799_950 ∷ 172_803_200 ∷ []
unfolding parse parse_from time_of
late_over_midnight = refl
