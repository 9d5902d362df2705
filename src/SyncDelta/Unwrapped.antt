-- ===== src/SyncDelta/Unwrapped.antt =====
-- scripts/sync-delta.py: the time axis of `parse` is that of the clock.
use mathlib.Core.Path.{subst}
use esphome_snapcast.Base.{
  ℕ, ◌+◌, ◌-◌, ◌*◌, ◌≤◌, ◌<◌, ◌≡◌, refl, ap, Option, none, some, List, [], ◌∷◌, arith,
}
use esphome_snapcast.Base.Int.{ℤ}
use esphome_snapcast.SyncDelta.Reports.{
  Report, day_ms, half_day_ms, time_of, day_at, parse_from, parse,
}

-- A line of the log with the day on which it was written, if it is a report.
pub record Dated : Type 0 where
  pub day : ℕ
  pub report : Report

abbrev pub lines_of : List (Option Dated) → List (Option Report)
lines_of [] = []
lines_of (none ∷ log) = none ∷ lines_of log
lines_of (some d ∷ log) = some d.report ∷ lines_of log

abbrev pub clock : Dated → ℕ
clock d = d.day * day_ms + time_of d.report

-- Less than half a day on from the one before it, or back within the day.
abbrev pub IsNear : Dated → Dated → Type 0
IsNear a b =
    (clock b < clock a + half_day_ms)
    × (clock a ≤ clock b + half_day_ms)
    × (a.day ≤ b.day)
    × (time_of b.report < day_ms)

abbrev pub AreNear : Dated → List (Option Dated) → Type 0
AreNear a [] = Unit
AreNear a (none ∷ log) = AreNear a log
AreNear a (some b ∷ log) = IsNear a b × AreNear b log

-- The reports, each at the time since the midnight in front of the first.
abbrev pub reports_since : ℕ → List (Option Dated) → List (ℕ × ℤ)
reports_since first [] = []
reports_since first (none ∷ log) = reports_since first log
reports_since first (some d ∷ log) =
    (clock d - first * day_ms, d.report.median) ∷ reports_since first log

day_at-near :
    (first : ℕ) (a b : Dated)
    → first ≤ a.day
    → time_of a.report < day_ms
    → IsNear a b
    → day_at (a.day - first) (some (clock a - first * day_ms)) (time_of b.report) ≡ b.day - first
day_at-near first a b le inside (on, back, days, t) = ground arith

now-near :
    (first : ℕ) (b : Dated)
    → first ≤ b.day
    → time_of b.report + (b.day - first) * day_ms ≡ clock b - first * day_ms
now-near first b le = omega arith

parse_from-since :
    (first : ℕ) (a : Dated) (log : List (Option Dated))
    → first ≤ a.day
    → time_of a.report < day_ms
    → AreNear a log
    → (parse_from (a.day - first) (some (clock a - first * day_ms)) (lines_of log)).0
      ≡ reports_since first log
unfolding parse_from
parse_from-since first a [] le inside h = refl
parse_from-since first a (none ∷ log) le inside h = parse_from-since first a log le inside h
parse_from-since first a (some b ∷ log) le inside (near, h) =
    let later : first ≤ b.day = omega (arith, near.2) in
    rw (day_at-near first a b le inside near, now-near first b later)
      (ap (λ r. (clock b - first * day_ms, b.report.median) ∷ r)
        (parse_from-since first b log later near.3 h))

-- In a log whose reports follow each other by less than half a day, and step back by no more than that
-- and not over midnight, each report stands at the time that passed since the midnight in front of the
-- first report, over any number of days; other lines change nothing.
pub parse-since :
    (a : Dated) (log : List (Option Dated))
    → time_of a.report < day_ms
    → AreNear a log
    → (parse (lines_of (some a ∷ log))).0 ≡ reports_since a.day (some a ∷ log)
unfolding parse parse_from
parse-since a log inside h =
    let same_day : a.day - a.day ≡ 0 = omega arith in
    let at_first : time_of a.report + 0 ≡ clock a - a.day * day_ms = omega arith in
    rw at_first (
      ap (λ r. (clock a - a.day * day_ms, a.report.median) ∷ r)
        (subst
          (λ d.
            (parse_from d (some (clock a - a.day * day_ms)) (lines_of log)).0
            ≡ reports_since a.day log)
          same_day (parse_from-since a.day a log (omega arith) inside h)))
