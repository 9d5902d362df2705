-- ===== src/Decoder/Correlation.antt =====
-- scripts/decoders/i2s_skew/pd.py: the bounded cross-correlation of two windows and the choice of
-- its peak and of the runner-up.
use mathlib.Core.List.{foldl}
use esphome_snapcast.Base.{
  ℕ, suc, ◌+◌, ◌-◌, min, ◌&&◌, ◌||◌, Option, none, some, List, [], ◌∷◌, map, ltb, leb,
  if◌then◌else◌, length, get_or, range_from,
}
use esphome_snapcast.Base.Int.{ℤ, pos}
use esphome_snapcast.Base.Float.{Float}

module _ (fl : Float) where
  open fl use {F, of_int, add, sub, mul, div, sqrt, abs, lt, eq}

  unfoldable pub sum_float : List F → F
  sum_float xs = foldl add (of_int (pos 0)) xs

  -- `an = [x - ma for x in a]` with `ma = sum(a) / n`
  unfoldable pub centred : ℕ → List ℤ → List F
  unfolding sum_float
  centred n xs =
      let floats = map of_int xs in
      let mean = div (sum_float floats) (of_int (pos n)) in map (λ x. sub x mean) floats

  unfoldable pub norm : List F → F
  unfolding sum_float
  norm xs = sqrt (sum_float (map (λ x. mul x x) xs))

  -- One lag `k = idx - lags`: the sum over the `i` for which `j = i - k` is an index.
  unfoldable pub correlate_at : ℕ → ℕ → List F → List F → ℕ → F
  correlate_at n lags an bn idx =
      let zero_f = of_int (pos 0) in
      foldl
        (λ s i.
          let j = i + lags - idx in
          if leb idx (i + lags) && ltb j n
          then add s (mul (get_or an i zero_f) (get_or bn j zero_f))
          else s)
        zero_f (range_from 0 n)

  -- The values over `range(-lags, lags + 1)`.
  unfoldable pub correlations : ℕ → ℕ → List F → List F → F → F → List F
  unfolding correlate_at
  correlations n lags an bn na nb =
      map (λ idx. div (correlate_at n lags an bn idx) (mul na nb)) (range_from 0 (lags + lags + 1))

  -- `_corr_full`: the values, unless a window is silent, and the index of lag 0.
  unfoldable pub corr_full : ℕ → List ℤ → List ℤ → Option (List F) × ℕ
  unfolding centred norm
  corr_full max_lag a b =
      let n = length a in
      let an = centred n a in
      let bn = centred n b in
      let na = norm an in
      let nb = norm bn in
      let lags = min max_lag (n - 1) in
      if eq na (of_int (pos 0)) || eq nb (of_int (pos 0))
      then (none, 0)
      else (some (correlations n lags an bn na nb), lags)

  -- `max(range(len(corr)), key=lambda i: abs(corr[i]))`: the first index of a greatest value.
  unfoldable pub argmax_from : ℕ → F → ℕ → List F → ℕ
  argmax_from best_i best i [] = best_i
  argmax_from best_i best i (x ∷ xs) =
      let won = lt best (abs x) in
      argmax_from (if won then i else best_i) (if won then abs x else best) (suc i) xs

  -- The source calls it on a list that is never empty.
  unfoldable pub argmax : List F → ℕ
  unfolding argmax_from
  argmax [] = 0
  argmax (x ∷ xs) = argmax_from 0 (abs x) 1 xs

  -- `[abs(corr[i]) for i in range(len(corr)) if not (lo <= i < hi)]`, from index `i` on.
  unfoldable pub others : ℕ → ℕ → ℕ → List F → List F
  others lo hi i [] = []
  others lo hi i (x ∷ xs) =
      let rest = others lo hi (suc i) xs in if leb lo i && ltb i hi then rest else abs x ∷ rest

  unfoldable pub max_from : F → List F → F
  max_from best [] = best
  max_from best (x ∷ xs) = max_from (if lt best x then x else best) xs

  -- `max(others) if others else 0.0`
  unfoldable pub rival_of : List F → F
  unfolding max_from
  rival_of [] = of_int (pos 0)
  rival_of (x ∷ xs) = max_from x xs
