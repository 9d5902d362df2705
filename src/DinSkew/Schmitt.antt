-- ===== src/DinSkew/Schmitt.antt =====
-- scripts/din-skew.py: `binarize`, as it is vectorised. The rails come from `np.percentile`, whose
-- results are parameters. An index of -1 is `none`.
use esphome_snapcast.Base.{
  ℕ, suc, Bool, false, ◌||◌, Option, none, some, List, [], ◌∷◌, leb, if◌then◌else◌, map, get_or,
}
use esphome_snapcast.Base.Int.{pos}
use esphome_snapcast.Base.Float.{Float}

-- A sample against the two thresholds.
pub record Sample : Type 0 where
  pub above : Bool
  pub below : Bool

module _ (fl : Float) where
  open fl use {F, add, sub, mul, div, lt, of_int}

  pub record Levels : Type 0 where
    pub mid : F
    pub band : F

  -- `levels`, from the two percentiles; `hyst_frac` is HYST_FRAC.
  unfoldable pub levels_of : F → F → F → Levels
  levels_of hyst_frac lo hi = record {
    mid = div (add lo hi) (of_int (pos 2));
    band = mul (sub hi lo) hyst_frac;
  }

  -- `above, below = x > mid + band, x < mid - band`
  unfoldable pub sample_of : Levels → F → Sample
  sample_of l x = record { above = lt (add l.mid l.band) x; below = lt x (sub l.mid l.band) }

  unfoldable pub samples_of : F → F → F → List F → List Sample
  unfolding levels_of sample_of
  samples_of hyst_frac lo hi xs = map (sample_of (levels_of hyst_frac lo hi)) xs

-- `np.where(above | below, np.arange(x.size), -1)`, from a position on
unfoldable pub decided_from : ℕ → List Sample → List (Option ℕ)
decided_from i [] = []
decided_from i (s ∷ ss) = (if s.above || s.below then some i else none) ∷ decided_from (suc i) ss

abbrev pub max_index : Option ℕ → Option ℕ → Option ℕ
max_index none b = b
max_index (some a) none = some a
max_index (some a) (some b) = if leb a b then some b else some a

-- `np.maximum.accumulate`, with the maximum so far
unfoldable pub accumulate : Option ℕ → List (Option ℕ) → List (Option ℕ)
accumulate m [] = []
accumulate m (i ∷ is) = let m' = max_index m i in m' ∷ accumulate m' is

-- `out[ok] = above[idx[ok]]`, on a list of false
abbrev pub level_at : List Bool → Option ℕ → Bool
level_at aboves none = false
level_at aboves (some i) = get_or aboves i false

abbrev pub aboves_of : List Sample → List Bool
aboves_of ss = map (λ (s : Sample). s.above) ss

-- `binarize`, behind the comparisons
unfoldable pub binarize : List Sample → List Bool
unfolding decided_from accumulate
binarize ss = map (level_at (aboves_of ss)) (accumulate none (decided_from 0 ss))
