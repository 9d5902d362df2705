-- ===== src/Analyser/DeviceClock/Place.antt =====
-- scripts/i2s-skew.py: `place_device_times`, `device_anchor` and `tod_to_unix`. Times are whole
-- microseconds on both clocks. An epoch holds its rows where the source has their indices, which
-- are consecutive, so that what is placed is appended where the source stores it.
use esphome_snapcast.Base.{
  ℕ, ◌+◌, ◌/◌, Bool, false, Option, none, some, List, [], ◌∷◌, ◌++◌, ltb, if◌then◌else◌, length,
  get_elem?, map,
}
use esphome_snapcast.Base.Int.{ℤ, pos, ◌+ℤ◌, ◌-ℤ◌, dist_ℤ}
use esphome_snapcast.Analyser.Series.Gaps.{sorted}

-- A row: `host_of` and `dev_of` of it.
pub record Row : Type 0 where
  pub host : ℤ
  pub dev : Option ℕ

-- `prev is not None and d < prev`
abbrev pub went_back : Option ℕ → Option ℕ → Bool
went_back prev none = false
went_back none (some d) = false
went_back (some prev) (some d) = ltb d prev

abbrev pub or_prev : Option ℕ → Option ℕ → Option ℕ
or_prev prev none = prev
or_prev prev (some d) = some d

-- The loop over the rows, with `prev` and `cur`.
unfoldable pub epochs_from : Option ℕ → List Row → List Row → List (List Row)
epochs_from prev cur [] = cur ∷ []
epochs_from prev cur (r ∷ rows) =
    let cut = went_back prev r.dev in
    let rest = epochs_from (or_prev prev r.dev) ((if cut then [] else cur) ++ r ∷ []) rows in
    if cut then cur ∷ rest else rest

-- `h - d` for the rows with a device time
unfoldable pub diffs_of : List Row → List ℤ
diffs_of [] = []
diffs_of (r ∷ rows) =
    let rest = diffs_of rows in elim r.dev [ none ↦ rest | some d ↦ (r.host -ℤ pos d) ∷ rest ]

-- `diffs[len(diffs) // 2]`; there is none of an empty list.
unfoldable pub median : List ℤ → Option ℤ
unfolding sorted
median xs = get_elem? (sorted xs) (length xs / 2)

abbrev pub place_at : ℤ → Option ℕ → Option ℤ
place_at off none = none
place_at off (some d) = some (pos d +ℤ off)

-- One epoch, by its offset: an epoch without one has no device times.
unfoldable pub place_epoch : Option ℤ → List Row → List (Option ℤ)
place_epoch none rows = map (λ (r : Row). none) rows
place_epoch (some off) rows = map (λ (r : Row). place_at off r.dev) rows

unfoldable pub residuals : Option ℤ → List ℤ → List ℕ
residuals none diffs = []
residuals (some off) diffs = map (λ x. dist_ℤ x off) diffs

-- The placed times, the residuals and the number of rows with a device time.
pub record Placed : Type 0 where
  pub times : List (Option ℤ)
  pub resid : List ℕ
  pub n : ℕ

unfoldable pub place_epochs : List (List Row) → Placed
place_epochs [] = record { times = []; resid = []; n = 0 }
place_epochs (epoch ∷ epochs) =
    let diffs = diffs_of epoch in
    let off = median diffs in
    let rest = place_epochs epochs in
    record {
      times = place_epoch off epoch ++ rest.times;
      resid = residuals off diffs ++ rest.resid;
      n = length diffs + rest.n;
    }

-- `sorted(resid)[len(resid) // 2]`, in microseconds
unfoldable pub jitter : List ℕ → Option ℤ
unfolding median
jitter resid = median (map (λ x. pos x) resid)

-- `place_device_times`
unfoldable pub place_device_times : List Row → List (Option ℤ) × (Option ℤ × ℕ)
place_device_times rows =
    let p = place_epochs (epochs_from none [] rows) in (p.times, (jitter p.resid, p.n))

-- `device_anchor`: the offset and the residual, unless there are no pairs, and the number of pairs
unfoldable pub device_anchor : List (ℤ × ℤ) → Option ℤ × (Option ℤ × ℕ)
unfolding median
device_anchor pairs =
    let diffs = map (λ (p : ℤ × ℤ). p.0 -ℤ p.1) pairs in
    elim (median diffs) [
      | none ↦ (none, (none, 0))
      | some off ↦ (some off, (median (map (λ x. pos (dist_ℤ x off)) diffs), length diffs))
    ]

abbrev pub day : ℕ
day = 86_400_000_000

-- `if best is None or abs(cand - ref_unix) < abs(best - ref_unix)`
abbrev pub nearer : ℤ → ℤ → ℤ → ℤ
nearer ref best cand = if ltb (dist_ℤ cand ref) (dist_ℤ best ref) then cand else best

-- `tod_to_unix`, where `midnight` is the start of the day of `ref` by the local calendar
unfoldable pub tod_to_unix : ℤ → ℤ → ℤ → ℤ
tod_to_unix midnight ref tod =
    let today = midnight +ℤ tod in
    nearer ref (nearer ref (today -ℤ pos day) today) (today +ℤ pos day)
