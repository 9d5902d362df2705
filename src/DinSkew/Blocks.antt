-- ===== src/DinSkew/Blocks.antt =====
-- scripts/din-skew.py: `xcorr_blocks`, behind the correlation of each block. The median, the mean and
-- the fit of a line are numpy's and are parameters; so is the arithmetic, and the constants of the
-- file are values of it. A result of NaN is `none`.
use esphome_snapcast.Base.{
  ℕ, zero, suc, Bool, true, false, ◌&&◌, Option, none, some, List, [], ◌∷◌, ltb, leb, map,
  if◌then◌else◌, length,
}
use esphome_snapcast.Base.Int.{pos}
use esphome_snapcast.Base.Float.{Float}

pub record Numpy (fl : Float) : Type 0 where
  pub median : List fl.F → fl.F
  pub mean : List fl.F → fl.F
  -- `np.polyfit(t, y, 1)`: the slope and the value at 0
  pub fit : List (fl.F × fl.F) → fl.F × fl.F
  -- `np.ptp(t) > 0`
  pub spreads : List fl.F → Bool
  pub largest : List fl.F → fl.F
  -- `1e6`
  pub million : fl.F
  -- MIN_COEF, ALIAS_WINDOW and CLUSTER_TOL
  pub min_coef : fl.F
  pub alias_window : fl.F
  pub cluster_tol : fl.F

-- The block's centre in time, its lag and the coefficient there.
pub record Block (fl : Float) : Type 0 where
  pub time : fl.F
  pub lag : fl.F
  pub coef : fl.F

-- (lag, coef, agree, ppm)
pub record Lag (fl : Float) : Type 0 where
  pub lag : Option fl.F
  pub coef : fl.F
  pub agree : fl.F
  pub ppm : Option fl.F

-- `xs[mask]`
abbrev pub select {ℓ} : {A : Type ℓ} → List Bool → List A → List A
select (true ∷ mask) (x ∷ xs) = x ∷ select mask xs
select (false ∷ mask) (x ∷ xs) = select mask xs
select _ _ = []

-- `mask.sum()`
unfoldable pub sum : List Bool → ℕ
sum [] = 0
sum (true ∷ mask) = suc (sum mask)
sum (false ∷ mask) = sum mask

-- `np.array_equal`
unfoldable pub array_equal : List Bool → List Bool → Bool
array_equal [] [] = true
array_equal (true ∷ xs) (true ∷ ys) = array_equal xs ys
array_equal (false ∷ xs) (false ∷ ys) = array_equal xs ys
array_equal _ _ = false

module _ (fl : Float) (np : Numpy fl) where
  open fl use {F, add, sub, mul, div, abs, le, of_int}

  abbrev pub lags : List (Block fl) → List F
  lags bs = map (λ (b : Block fl). b.lag) bs

  abbrev pub times : List (Block fl) → List F
  times bs = map (λ (b : Block fl). b.time) bs

  abbrev pub sizes : List (Block fl) → List F
  sizes bs = map (λ (b : Block fl). abs b.coef) bs

  -- `np.abs(lv - centre) <= ALIAS_WINDOW`
  unfoldable pub around : F → List (Block fl) → List Bool
  around centre bs = map (λ (b : Block fl). le (abs (sub b.lag centre)) np.alias_window) bs

  -- `np.abs(lv - np.polyval(A, tv)) <= CLUSTER_TOL`
  unfoldable pub on_line : F × F → List (Block fl) → List Bool
  on_line (slope, at_zero) bs =
      map (λ (b : Block fl). le (abs (sub b.lag (add (mul slope b.time) at_zero))) np.cluster_tol)
        bs

  -- `A = ...` at the start of a round
  unfoldable pub line_of : List (Block fl) → List Bool → F × F
  line_of bs inl =
      if leb 6 (sum inl) && np.spreads (times (select inl bs))
      then np.fit (map (λ (b : Block fl). (b.time, b.lag)) (select inl bs))
      else (of_int (pos 0), np.median (lags (select inl bs)))

  -- `for _ in range(4)`: the line and the inliers behind the loop
  unfoldable pub refine : ℕ → List (Block fl) → List Bool → F × F → (F × F) × List Bool
  unfolding on_line line_of
  refine zero bs inl line = (line, inl)
  refine (suc rounds) bs inl line =
      let line' = line_of bs inl in
      let next = on_line line' bs in
      let rest = refine rounds bs next line' in
      if ltb (sum next) 4
      then (line', inl)
      else if array_equal next inl
      then (line', next)
      else rest

  -- Behind the search for the first inliers.
  unfoldable pub fitted : List (Block fl) → List Bool → Lag fl
  unfolding refine
  fitted bs inl =
      let (line, inl') = refine 4 bs inl (of_int (pos 0), np.median (lags (select inl bs))) in
      record {
        lag = some (add (mul line.0 (np.mean (times bs))) line.1);
        coef = np.mean (sizes (select inl' bs));
        agree = div (of_int (pos (sum inl'))) (of_int (pos (length bs)));
        ppm = if leb 6 (sum inl') then some (mul line.0 np.million) else none;
      }

  abbrev pub centre_of : Option F → List (Block fl) → F
  centre_of none bs = np.median (lags bs)
  centre_of (some prefer) bs = prefer

  -- From the usable blocks on: `if keep.sum() < 4` has been passed.
  unfoldable pub consensus : Option F → List (Block fl) → Lag fl
  unfolding around fitted
  consensus prefer bs =
      let near = around (centre_of prefer bs) bs in
      let near' = around (np.median (lags bs)) bs in
      let inl = if ltb (sum near) 4 then near' else near in
      if ltb (sum inl) 4
      then record { lag = none; coef = np.mean (sizes bs); agree = of_int (pos 0); ppm = none }
      else fitted bs inl

  -- `keep`
  unfoldable pub usable : List (Block fl) → List Bool
  usable bs = map (λ (b : Block fl). le np.min_coef (abs b.coef)) bs

  -- `xcorr_blocks`, of the blocks of the capture
  unfoldable pub xcorr_blocks : Option F → List (Block fl) → Lag fl
  unfolding usable consensus
  xcorr_blocks prefer bs =
      if ltb (length bs) 4
      then record {
        lag = none;
        coef = of_int (pos 0);
        agree = of_int (pos 0);
        ppm = some (of_int (pos (length bs)));
      }
      else if ltb (sum (usable bs)) 4
      then record { lag = none; coef = np.largest (sizes bs); agree = of_int (pos 0); ppm = none }
      else consensus prefer (select (usable bs) bs)
