-- ===== src/Analyser/Series/Gaps.antt =====
-- scripts/i2s-skew.py: `split_gaps` and `trim_temps`. A time is a whole number of milliseconds, so
-- that half a second is 500.
use Prim.Native.String.{String}
use esphome_snapcast.Base.{◌/◌, ◌&&◌, List, [], ◌∷◌, ◌++◌, leb, if◌then◌else◌, length, get_or}
use esphome_snapcast.Base.Int.{ℤ, pos, leb_ℤ, ltb_ℤ, ◌-ℤ◌, ◌*ℤ◌}

-- `sorted`, on integers
abbrev pub insert : ℤ → List ℤ → List ℤ
insert x [] = x ∷ []
insert x (y ∷ ys) = if leb_ℤ x y then x ∷ y ∷ ys else y ∷ insert x ys

unfoldable pub sorted : List ℤ → List ℤ
sorted [] = []
sorted (x ∷ xs) = insert x (sorted xs)

abbrev pub max_ℤ : ℤ → ℤ → ℤ
max_ℤ a b = if leb_ℤ a b then b else a

-- The median gap is in the same unit as the floor.
unfoldable pub gap_limit : List ℤ → ℤ
unfolding sorted
gap_limit gaps =
    let med = get_or (sorted gaps) (length gaps / 2) (pos 0) in
    if ltb_ℤ (pos 0) med then max_ℤ (pos 10 *ℤ med) (pos 500) else pos 500

module _ {V : Type 0} where
  -- `pts[i + 1][0] - pts[i][0]`, behind a point at `t`
  unfoldable pub gaps_from : ℤ → List (ℤ × V) → List ℤ
  gaps_from t [] = []
  gaps_from t (p ∷ pts) = (p.0 -ℤ t) ∷ gaps_from p.0 pts

  -- The rest of the loop, with the point before it, and the segment in hand.
  unfoldable pub split_from : ℤ → ℤ × V → List (ℤ × V) → List (ℤ × V) → List (List (ℤ × V))
  split_from limit prev cur [] = cur ∷ []
  split_from limit prev cur (next ∷ pts) =
      let cut = ltb_ℤ limit (next.0 -ℤ prev.0) in
      let rest = split_from limit next ((if cut then [] else cur) ++ next ∷ []) pts in
      if cut then cur ∷ rest else rest

  -- `[sg for sg in segs if sg]`
  unfoldable pub nonempty : List (List (ℤ × V)) → List (List (ℤ × V))
  nonempty [] = []
  nonempty ([] ∷ segs) = nonempty segs
  nonempty ((p ∷ ps) ∷ segs) = (p ∷ ps) ∷ nonempty segs

  -- `split_gaps`
  unfoldable pub split_gaps : List (ℤ × V) → List (List (ℤ × V))
  unfolding gaps_from gap_limit split_from nonempty
  split_gaps [] = []
  split_gaps (p ∷ []) = (p ∷ []) ∷ []
  split_gaps (p ∷ q ∷ []) = (p ∷ q ∷ []) ∷ []
  split_gaps (p ∷ q ∷ r ∷ pts) =
      let more = q ∷ r ∷ pts in
      nonempty (split_from (gap_limit (gaps_from p.0 more)) p (p ∷ []) more)

  -- `[(x, v) for x, v in series if lo <= x <= hi]`
  unfoldable pub trim_series : ℤ → ℤ → List (ℤ × V) → List (ℤ × V)
  trim_series lo hi [] = []
  trim_series lo hi (p ∷ series) =
      let rest = trim_series lo hi series in if leb_ℤ lo p.0 && leb_ℤ p.0 hi then p ∷ rest else rest

  -- `trim_temps`, on the items of the dict
  unfoldable pub trim_temps : List (String × List (ℤ × V)) → ℤ → ℤ → List (String × List (ℤ × V))
  unfolding trim_series
  trim_temps [] lo hi = []
  trim_temps ((name, series) ∷ temps) lo hi =
      let keep = trim_series lo hi series in
      let rest = trim_temps temps lo hi in if leb 2 (length keep) then (name, keep) ∷ rest else rest
