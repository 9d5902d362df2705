-- ===== src/Analyser/Series/Examples.antt =====
-- scripts/i2s-skew.py: series at concrete inputs.
use esphome_snapcast.Base.{
  ℕ, zero, suc, get_elem?, ◌⊎◌, ◌<◌, ◌≤◌, arith, ◌≡◌, refl, none, some, List, [], ◌∷◌, ◌++◌,
}
use esphome_snapcast.Base.Int.{ℤ, pos, dist_ℤ, ◌-ℤ◌, ◌*ℤ◌}
use esphome_snapcast.Base.Float.{whole}
use esphome_snapcast.Analyser.Series.Lookup.{nearest_value, nearest_at, search, is_before}
use esphome_snapcast.Analyser.Series.Gaps.{
  split_gaps, split_from, gap_limit, gaps_from, sorted, nonempty,
}
use esphome_snapcast.Analyser.Series.Diffs.{TrimRow, trim_diff, paired_with, partner_at}
use esphome_snapcast.Analyser.Series.Sorted.{IsSorted, IsNearest}
use esphome_snapcast.Analyser.Series.Within.{nearest_value-IsNearest}
use esphome_snapcast.Analyser.Series.Breaks.{Breaks, trim_diff-Breaks}

abbrev two_rows : List (ℤ × ℕ)
two_rows = (pos 10, 1) ∷ (pos 20, 2) ∷ []

first_on_tie : nearest_at two_rows (pos 15) ≡ some (pos 20, 2)
unfolding nearest_at search is_before ◌-ℤ◌
first_on_tie = refl

row_time : (p q : ℤ × ℕ) → some p ≡ some q → q.0 ≡ p.0
row_time p q e = cc e

two_rows-IsSorted : IsSorted two_rows
two_rows-IsSorted zero zero a b h p q =
    rw (row_time (pos 10, 1) a p, row_time (pos 10, 1) b q) (omega arith)
two_rows-IsSorted zero (suc zero) a b h p q =
    rw (row_time (pos 10, 1) a p, row_time (pos 20, 2) b q) (omega arith)
two_rows-IsSorted (suc zero) zero a b h p q = absurd (omega arith)
two_rows-IsSorted (suc zero) (suc zero) a b h p q =
    rw (row_time (pos 20, 2) a p, row_time (pos 20, 2) b q) (omega arith)
two_rows-IsSorted (suc (suc i)) j a b h p q = cc p
two_rows-IsSorted i (suc (suc j)) a b h p q = cc q

nearest_value-IsNearest_example :
    ((nearest_value 4 two_rows (pos 17) ≡ none)
      × ((i : ℕ) (row : ℤ × ℕ) → get_elem? two_rows i ≡ some row → 4 < dist_ℤ row.0 (pos 17)))
    ⊎ ((row : ℤ × ℕ) × (nearest_value 4 two_rows (pos 17) ≡ some row.1)
        × (dist_ℤ row.0 (pos 17) ≤ 4)
        × IsNearest two_rows (pos 17) row)
nearest_value-IsNearest_example = nearest_value-IsNearest 4 (pos 17) two_rows two_rows-IsSorted

abbrev with_gap : List (ℤ × ℕ)
with_gap = (pos 0, 1) ∷ (pos 10, 2) ∷ (pos 20, 3) ∷ (pos 900, 4) ∷ []

cut_once :
    split_gaps with_gap ≡ ((pos 0, 1) ∷ (pos 10, 2) ∷ (pos 20, 3) ∷ []) ∷ ((pos 900, 4) ∷ []) ∷ []
unfolding split_gaps split_from gap_limit gaps_from sorted nonempty ◌-ℤ◌ ◌*ℤ◌
cut_once = refl

abbrev window : ℕ → ℤ × TrimRow ℤ
window t = (pos t, record { mean = some (pos 3); audio = pos 1000 })

abbrev no_trim : ℕ → ℤ × TrimRow ℤ
no_trim t = (pos t, record { mean = none; audio = pos 1000 })

abbrev board_b : List (ℤ × TrimRow ℤ)
board_b = window 1000 ∷ window 2000 ∷ window 3000 ∷ window 4000 ∷ []

trim_diff-Breaks_example :
    Breaks whole board_b
      (pos 4000)
      (trim_diff whole
        ((window 1000 ∷ []) ++ no_trim 2000 ∷ ((no_trim 3000 ∷ []) ++ window 4000 ∷ []))
        board_b).breaks
trim_diff-Breaks_example =
    trim_diff-Breaks whole board_b (window 1000 ∷ []) (no_trim 2000) (no_trim 3000 ∷ [])
      (window 4000) (record { diff = pos 0; audio = pos 1000 }) []
      (unfold paired_with partner_at nearest_at search is_before ◌-ℤ◌ in refl)
      (unfold paired_with partner_at nearest_at search is_before ◌-ℤ◌ in (refl, tt))
      (unfold paired_with partner_at nearest_at search is_before ◌-ℤ◌ in refl)
