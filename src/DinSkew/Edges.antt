-- ===== src/DinSkew/Edges.antt =====
-- scripts/din-skew.py: `edge_times`, where each transition crosses the middle between the rails.
use esphome_snapcast.Base.{
  ℕ, zero, suc, ◌-◌, Bool, not, ◌&&◌, List, [], ◌∷◌, ltb, if◌then◌else◌, map, get_or,
}
use esphome_snapcast.Base.Int.{pos}
use esphome_snapcast.Base.Float.{Float}
use esphome_snapcast.DinSkew.Schmitt.{levels_of, samples_of, binarize}

abbrev pub same_level : Bool → Bool → Bool
same_level a b = if a then b else not b

-- `np.flatnonzero(np.diff(d))`, each index `i` with `d[i + 1]`
unfoldable pub flips_from : ℕ → Bool → List Bool → List (ℕ × Bool)
flips_from i a [] = []
flips_from i a (b ∷ ds) =
    let rest = flips_from (suc i) b ds in if same_level a b then rest else (i, b) ∷ rest

abbrev pub flips : List Bool → List (ℕ × Bool)
flips [] = []
flips (a ∷ ds) = flips_from 0 a ds

-- `while j > lim and (x[j] >= mid) == rising`
unfoldable pub walk_back : (ℕ → Bool) → ℕ → ℕ → ℕ
walk_back on lim zero = zero
walk_back on lim (suc j) =
    let rest = walk_back on lim j in if ltb lim (suc j) && on (suc j) then rest else suc j

abbrev pub max_back : ℕ
max_back = 24

module _ (fl : Float) where
  open fl use {F, add, sub, div, lt, le, eq, of_int}

  abbrev pub sample_at : List F → ℕ → F
  sample_at xs j = get_or xs j (of_int (pos 0))

  -- `(x[j] >= mid) == rising`
  abbrev pub on_side : F → List F → Bool → ℕ → Bool
  on_side mid xs rising j = same_level (le mid (sample_at xs j)) rising

  -- The sample in front of the crossing.
  abbrev pub left_of : F → List F → ℕ × Bool → ℕ
  left_of mid xs flip = walk_back (on_side mid xs flip.1) (flip.0 - max_back) (suc flip.0)

  -- `min(max(frac, 0.0), 1.0)`
  abbrev pub clamp : F → F
  clamp frac =
      let at_least = if lt frac (of_int (pos 0)) then of_int (pos 0) else frac in
      if lt (of_int (pos 1)) at_least then of_int (pos 1) else at_least

  abbrev pub fraction : F → F → F → F
  fraction mid a b =
      if eq b a then div (of_int (pos 1)) (of_int (pos 2)) else div (sub mid a) (sub b a)

  abbrev pub edge_at : F → List F → ℕ × Bool → F
  edge_at mid xs flip =
      let j = left_of mid xs flip in
      add (of_int (pos j)) (clamp (fraction mid (sample_at xs j) (sample_at xs (suc j))))

  unfoldable pub flips_of : F → F → F → List F → List (ℕ × Bool)
  flips_of hyst_frac lo hi xs = flips (binarize (samples_of fl hyst_frac lo hi xs))

  -- `hyst_frac` is HYST_FRAC, `lo` and `hi` are the percentiles.
  unfoldable pub edge_times : F → F → F → List F → List F
  edge_times hyst_frac lo hi xs =
      map (edge_at (levels_of fl hyst_frac lo hi).mid xs) (flips_of hyst_frac lo hi xs)
