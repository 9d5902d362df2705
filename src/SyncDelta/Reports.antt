-- ===== src/SyncDelta/Reports.antt =====
-- scripts/sync-delta.py: `parse`, on lines whose pattern has been matched. Times are whole milliseconds.
use esphome_snapcast.Base.{
  ℕ, suc, ◌+◌, ◌-◌, ◌*◌, ◌^◌, Option, none, some, List, [], ◌∷◌, ltb, if◌then◌else◌, length, drop,
}
use esphome_snapcast.Base.Int.{ℤ}

-- What `LINE_RE` and `DEPTH_RE` match in a line; the milliseconds have one to three digits.
pub record Report : Type 0 where
  pub hours : ℕ
  pub minutes : ℕ
  pub seconds : ℕ
  pub ms : Option (ℕ × ℕ)
  pub median : ℤ
  pub depth : Option ℤ

abbrev pub day_ms : ℕ
day_ms = 86_400_000

abbrev pub half_day_ms : ℕ
half_day_ms = 43_200_000

-- `int(ms.ljust(3, "0"))`
abbrev pub millis : Option (ℕ × ℕ) → ℕ
millis none = 0
millis (some (value, digits)) = value * 10 ^ (3 - digits)

unfoldable pub time_of : Report → ℕ
time_of r = (r.hours * 3600 + r.minutes * 60 + r.seconds) * 1000 + millis r.ms

-- The day behind a time that is far in front of the one before it.
abbrev pub day_at : ℕ → Option ℕ → ℕ → ℕ
day_at day none t = day
day_at day (some prev) t = if ltb (t + half_day_ms) (prev - day * day_ms) then suc day else day

abbrev pub add_depth : Option ℤ → List ℤ → List ℤ
add_depth none depth = depth
add_depth (some d) depth = d ∷ depth

-- The rest of the loop: what it appends to `out` and to `depth`.
unfoldable pub parse_from : ℕ → Option ℕ → List (Option Report) → List (ℕ × ℤ) × List ℤ
parse_from day prev [] = ([], [])
parse_from day prev (none ∷ lines) = parse_from day prev lines
parse_from day prev (some r ∷ lines) =
    let today = day_at day prev (time_of r) in
    let now = time_of r + today * day_ms in
    let rest = parse_from today (some now) lines in
    ((now, r.median) ∷ rest.0, add_depth r.depth rest.1)

abbrev pub depth_tail : ℕ
depth_tail = 12

-- `depth[-DEPTH_TAIL:]`
abbrev pub last_depths : List ℤ → List ℤ
last_depths depth = drop (length depth - depth_tail) depth

unfoldable pub parse : List (Option Report) → List (ℕ × ℤ) × List ℤ
parse lines = let all = parse_from 0 none lines in (all.0, last_depths all.1)
