-- ===== src/Analyser/Series/Nearest.antt =====
-- scripts/i2s-skew.py: the lookups find a nearest row of a series that is sorted by time.
use esphome_snapcast.Base.{
  ℕ, zero, suc, ◌-◌, ◌≤◌, ◌<◌, ◌≡◌, refl, ◌∙◌, ap, sym, ◌⊎◌, inl, inr, some, List, arith, ltb,
  length, get_elem?, get_elem?-within, le_or_lt, Bool-cases,
}
use esphome_snapcast.Base.Int.{ℤ, dist_ℤ}
use esphome_snapcast.Analyser.Series.Lookup.{search, closer, before, nearest_at}
use esphome_snapcast.Analyser.Series.Sorted.{
  IsSorted, Splits, search-Splits, lt_of_found, IsNearest, in_front-below, behind-above,
}

module _ {V : Type 0} where
  closer-le :
      (t : ℤ) (row best : ℤ × V)
      → let won = closer t (some row) best in
        (dist_ℤ won.0 t ≤ dist_ℤ row.0 t)
        × (dist_ℤ won.0 t ≤ dist_ℤ best.0 t)
        × ((won ≡ row) ⊎ (won ≡ best))
  closer-le t row best = elim (Bool-cases (ltb (dist_ℤ row.0 t) (dist_ℤ best.0 t))) [
    | inl won ↦ rw won (omega arith, ground arith, inl refl)
    | inr lost ↦ rw lost (ground arith, omega arith, inr refl)
  ]

  -- The rows from `r` on are no closer than row `r`, which may be the last.
  at_or_behind :
      (series : List (ℤ × V)) (t : ℤ) (r : ℕ) (best : ℤ × V)
      → IsSorted series
      → Splits series t (length series - 1) r
      → r < length series
      → get_elem? series r ≡ some best
      → (i : ℕ) (row : ℤ × V) → r ≤ i
      → get_elem? series i ≡ some row
      → dist_ℤ best.0 t ≤ dist_ℤ row.0 t
  at_or_behind series t r best sorted splits inside found i row h e =
      elim (le_or_lt (length series - 1) r) [
        | inl last ↦
            let i_inside = lt_of_found series i i row (omega arith) e in
            let same : i ≡ r = omega arith in
            let one : best ≡ row = cc (found, e, same) in rw one (omega arith)
        | inr before_last ↦
            behind-above series t (length series - 1) r best sorted splits before_last found i row h
              e
      ]

  before-IsNearest :
      (series : List (ℤ × V)) (t : ℤ) (r : ℕ) (best : ℤ × V)
      → IsSorted series
      → Splits series t (length series - 1) r
      → r < length series
      → get_elem? series r ≡ some best
      → IsNearest series t (closer t (before series r) best)
  before-IsNearest series t zero best sorted splits inside found = record {
    index = 0;
    found = found;
    nearest =
        λ i row e. at_or_behind series t 0 best sorted splits inside found i row (omega arith) e;
  }
  before-IsNearest series t (suc p) best sorted splits inside found =
      let (prev, found_prev) = get_elem?-within series p (omega arith) in
      rw found_prev (
        let (below, above, which) = closer-le t prev best in
        let place : (i : ℕ) × (get_elem? series i ≡ some (closer t (some prev) best)) = elim which [
          | inl w ↦ (p, found_prev ∙ ap some (sym w))
          | inr w ↦ (suc p, found ∙ ap some (sym w))
        ] in
        record {
          index = place.0;
          found = place.1;
          nearest = λ i row e. elim (le_or_lt i p) [
            | inl front ↦ omega (
              arith,
              below,
              in_front-below series t (length series - 1) p prev sorted splits found_prev i row
                  front e,
            )
            | inr back ↦ omega (
              arith,
              above,
              at_or_behind series t (suc p) best sorted splits inside found i row back e,
            )
          ];
        })

  nearest_at-some :
      (series : List (ℤ × V)) (t : ℤ) (r : ℕ) (best : ℤ × V)
      → search series t (length series) 0 (length series - 1) ≡ r
      → get_elem? series r ≡ some best
      → nearest_at series t ≡ some (closer t (before series r) best)
  unfolding nearest_at
  nearest_at-some series t r best e found = ground (arith, e, found)

  -- On a series that is sorted by time and not empty, `nearest_at` returns a row of it than which no
  -- other is closer.
  pub nearest_at-IsNearest :
      (series : List (ℤ × V)) (t : ℤ)
      → IsSorted series
      → 0 < length series
      → (best : ℤ × V) × (nearest_at series t ≡ some best) × IsNearest series t best
  nearest_at-IsNearest series t sorted some_rows =
      let r = search series t (length series) 0 (length series - 1) in
      let (low, high, splits) =
        search-Splits series t (length series - 1) (length series) 0 (length series - 1) sorted
          (omega arith) (omega arith) (omega arith) (λ k h. absurd (omega arith))
          (λ k h l. absurd (omega arith)) in
      let (best, found) = get_elem?-within series r (omega arith) in
      (
        closer t (before series r) best,
        nearest_at-some series t r best refl found,
        before-IsNearest series t r best sorted splits (omega arith) found,
      )
