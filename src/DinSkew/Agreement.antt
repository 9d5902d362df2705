-- ===== src/DinSkew/Agreement.antt =====
-- scripts/din-skew.py: when `xcorr_blocks` gives a lag.
use esphome_snapcast.Base.{◌≤◌, ◌<◌, ◌≡◌, ◌⊎◌, Bool, true, false, Option, none, List, [], ◌∷◌}
use esphome_snapcast.Base.Float.{Float}
use esphome_snapcast.DinSkew.Blocks.{Numpy, Block, Lag, sum, lags, centre_of}
use esphome_snapcast.DinSkew.Settled.{Marks, IsAgreed}

module _ (fl : Float) (np : Numpy fl) where
  open fl use {F, of_int, sub, abs, le}

  -- The blocks within the alias window of a lag.
  abbrev pub near_to : F → Block fl → Bool
  near_to centre b = le (abs (sub b.lag centre)) np.alias_window

  -- The blocks with enough of a coefficient.
  abbrev pub AreUsable : List (Block fl) → List (Block fl) → Type 0
  AreUsable [] good = good ≡ []
  AreUsable (b ∷ bs) good =
      ((le np.min_coef (abs b.coef) ≡ true)
        × ((rest : List (Block fl)) × (good ≡ b ∷ rest) × AreUsable bs rest))
      ⊎ ((le np.min_coef (abs b.coef) ≡ false) × AreUsable bs good)

  -- The first inliers: around the preferred lag or else the median; around the median if these are
  -- fewer than four.
  abbrev pub IsFirst : Option F → List (Block fl) → List Bool → Type 0
  IsFirst prefer bs mask =
      (near : List Bool) × Marks fl np (near_to (centre_of fl np prefer bs)) bs near
      × (((4 ≤ sum near) × (mask ≡ near))
          ⊎ ((sum near < 4) × Marks fl np (near_to (np.median (lags fl np bs))) bs mask))

  -- What is given for the usable blocks: no lag if fewer than four are among the first inliers, or one.
  abbrev pub IsVerdict : Option F → List (Block fl) → Lag fl → Type 0
  IsVerdict prefer good r =
      (start : List Bool) × IsFirst prefer good start
      × (((sum start < 4) × (r.lag ≡ none)) ⊎ IsAgreed fl np good start r)
