-- ===== src/Analyser/Series/Within.antt =====
-- scripts/i2s-skew.py: `nearest_value` finds a nearest row within its tolerance, or there is none.
use mathlib.Core.Path.{subst}
use esphome_snapcast.Base.{
  ℕ, zero, suc, ◌≤◌, ◌<◌, ◌≡◌, refl, ◌∙◌, ◌⊎◌, inl, inr, Option, none, some, List, arith, length,
  get_elem?, get_elem?-within, le_or_lt,
}
use esphome_snapcast.Base.Int.{ℤ, dist_ℤ}
use esphome_snapcast.Analyser.Series.Lookup.{value_of, before, bisect_left, consider, nearest_value}
use esphome_snapcast.Analyser.Series.Sorted.{
  IsSorted, Splits, search-Splits, IsNearest, in_front-below, behind-above, lt_of_found,
}

module _ {V : Type 0} (tol : ℕ) (t : ℤ) where
  -- The candidate, if there is one, is at least `d` away.
  abbrev NoCloser : ℕ → Option (ℤ × V) → Type 0
  NoCloser d none = Unit
  NoCloser d (some row) = d ≤ dist_ℤ row.0 t

  abbrev Far : Option (ℤ × V) → Type 0
  Far candidate = NoCloser (suc tol) candidate

  -- What the two candidates leave.
  record Chosen (front back : Option (ℤ × V)) (row : ℤ × V) : Type 0 where
    from : (front ≡ some row) ⊎ (back ≡ some row)
    within : dist_ℤ row.0 t ≤ tol
    front_no_closer : NoCloser (dist_ℤ row.0 t) front
    back_no_closer : NoCloser (dist_ℤ row.0 t) back

  choose : Option (ℤ × V) → Option (ℤ × V) → Option (ℕ × V)
  choose front back = consider tol t back (consider tol t front none)

  choose-cases :
      (front back : Option (ℤ × V))
      → ((choose front back ≡ none) × Far front × Far back)
        ⊎ ((row : ℤ × V) × (choose front back ≡ some (dist_ℤ row.0 t, row.1))
            × Chosen front back row)
  unfolding choose consider
  choose-cases none none = inl (refl, tt, tt)
  choose-cases (some p) none = elim (le_or_lt (dist_ℤ p.0 t) tol) [
    | inl near ↦ inr (
      p,
      ground arith,
      record { from = inl refl; within = near; front_no_closer = omega arith; back_no_closer = tt },
    )
    | inr far ↦ inl (ground arith, far, tt)
  ]
  choose-cases none (some q) = elim (le_or_lt (dist_ℤ q.0 t) tol) [
    | inl near ↦ inr (
      q,
      ground arith,
      record { from = inr refl; within = near; front_no_closer = tt; back_no_closer = omega arith },
    )
    | inr far ↦ inl (ground arith, tt, far)
  ]
  choose-cases (some p) (some q) = elim (le_or_lt (dist_ℤ p.0 t) tol) [
    | inl near_p ↦ elim (le_or_lt (dist_ℤ p.0 t) (dist_ℤ q.0 t)) [
      | inl first ↦ inr (
        p,
        ground arith,
        record {
          from = inl refl;
          within = near_p;
          front_no_closer = omega arith;
          back_no_closer = first;
        },
      )
      | inr second ↦ inr (
        q,
        ground arith,
        record {
          from = inr refl;
          within = omega arith;
          front_no_closer = omega arith;
          back_no_closer = omega arith;
        },
      )
    ]
    | inr far_p ↦ elim (le_or_lt (dist_ℤ q.0 t) tol) [
      | inl near_q ↦ inr (
        q,
        ground arith,
        record {
          from = inr refl;
          within = near_q;
          front_no_closer = omega arith;
          back_no_closer = omega arith;
        },
      )
      | inr far_q ↦ inl (ground arith, far_p, far_q)
    ]
  ]

  rows_in_front :
      (series : List (ℤ × V)) (r d : ℕ)
      → IsSorted series
      → Splits series t (length series) r
      → r ≤ length series
      → NoCloser d (before series r)
      → (i : ℕ) (row : ℤ × V) → i < r
      → get_elem? series i ≡ some row
      → d ≤ dist_ℤ row.0 t
  rows_in_front series zero d sorted splits inside h i row front e = absurd (omega arith)
  rows_in_front series (suc p) d sorted splits inside h i row front e =
      let (prev, found) = get_elem?-within series p (omega arith) in
      let near : d ≤ dist_ℤ prev.0 t = subst (NoCloser d) found h in
      omega (
        arith,
        near,
        in_front-below series t (length series) p prev sorted splits found i row (omega arith) e,
      )

  rows_behind :
      (series : List (ℤ × V)) (r d : ℕ)
      → IsSorted series
      → Splits series t (length series) r
      → NoCloser d (get_elem? series r)
      → (i : ℕ) (row : ℤ × V) → r ≤ i
      → get_elem? series i ≡ some row
      → d ≤ dist_ℤ row.0 t
  rows_behind series r d sorted splits h i row back e =
      let inside = lt_of_found series r i row back e in
      let (q, found) = get_elem?-within series r inside in
      let near : d ≤ dist_ℤ q.0 t = subst (NoCloser d) found h in
      omega (
        arith,
        near,
        behind-above series t (length series) r q sorted splits inside found i row back e,
      )

  no_closer :
      (series : List (ℤ × V)) (r d : ℕ)
      → IsSorted series
      → Splits series t (length series) r
      → r ≤ length series
      → NoCloser d (before series r)
      → NoCloser d (get_elem? series r)
      → (i : ℕ) (row : ℤ × V) → get_elem? series i ≡ some row
      → d ≤ dist_ℤ row.0 t
  no_closer series r d sorted splits inside front back i row e = elim (le_or_lt r i) [
    | inl behind ↦ rows_behind series r d sorted splits back i row behind e
    | inr in_front ↦ rows_in_front series r d sorted splits inside front i row in_front e
  ]

  index_of_choice :
      (series : List (ℤ × V)) (r : ℕ) (row : ℤ × V)
      → (before series r ≡ some row) ⊎ (get_elem? series r ≡ some row)
      → (i : ℕ) × (get_elem? series i ≡ some row)
  index_of_choice series zero row (inl e) = cc e
  index_of_choice series (suc p) row (inl e) = (p, e)
  index_of_choice series r row (inr e) = (r, e)

  nearest_value-choose :
      (series : List (ℤ × V))
      → let r = bisect_left series t in
        nearest_value tol series t ≡ value_of (choose (before series r) (get_elem? series r))
  unfolding nearest_value choose
  nearest_value-choose series = refl

  bisect_left-Splits :
      (series : List (ℤ × V))
      → IsSorted series
      → (bisect_left series t ≤ length series)
        × Splits series t (length series) (bisect_left series t)
  unfolding bisect_left
  bisect_left-Splits series sorted =
      let (low, high, splits) =
        search-Splits series t (length series) (suc (length series)) 0 (length series) sorted
          (omega arith) (omega arith) (omega arith) (λ k h. absurd (omega arith))
          (λ k h l. absurd (omega arith)) in
      (high, splits)

  -- On a series that is sorted by time, `nearest_value` returns the value of a row within the
  -- tolerance than which no other is closer; it returns nothing if no row is within the tolerance.
  pub nearest_value-IsNearest :
      (series : List (ℤ × V))
      → IsSorted series
      → ((nearest_value tol series t ≡ none)
          × ((i : ℕ) (row : ℤ × V) → get_elem? series i ≡ some row → tol < dist_ℤ row.0 t))
        ⊎ ((row : ℤ × V) × (nearest_value tol series t ≡ some row.1)
            × (dist_ℤ row.0 t ≤ tol)
            × IsNearest series t row)
  nearest_value-IsNearest series sorted =
      let r = bisect_left series t in
      let (high, splits) = bisect_left-Splits series sorted in
      let value = nearest_value-choose series in
      elim (choose-cases (before series r) (get_elem? series r)) [
        | inl (e, far_front, far_back) ↦ inl (
          value ∙ rw e refl,
          λ i row found.
              no_closer series r (suc tol) sorted splits high far_front far_back i row found,
        )
        | inr (row, e, chosen) ↦
            let (index, found) = index_of_choice series r row chosen.from in
            inr (
              row,
              value ∙ rw e refl,
              chosen.within,
              record {
                index = index;
                found = found;
                nearest =
                    no_closer series r (dist_ℤ row.0 t) sorted splits high chosen.front_no_closer
                      chosen.back_no_closer;
              },
            )
      ]
