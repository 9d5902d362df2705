-- ===== src/Analyser/Series/Lookup.antt =====
-- scripts/i2s-skew.py: `nearest_at` and `nearest_value`. A time is a whole number of ticks, of
-- whatever size: the source only compares times and their distances.
use esphome_snapcast.Base.{
  ℕ, zero, suc, ◌+◌, ◌-◌, ◌/◌, Bool, false, ◌&&◌, Option, none, some, List, ltb, leb, if◌then◌else◌,
  length, get_elem?,
}
use esphome_snapcast.Base.Int.{ℤ, ltb_ℤ, dist_ℤ}

module _ {V : Type 0} where
  -- `series[mid][0] < t`; the index is always within the series.
  unfoldable pub is_before : List (ℤ × V) → ℤ → ℕ → Bool
  is_before series t mid = elim (get_elem? series mid) [ none ↦ false | some row ↦ ltb_ℤ row.0 t ]

  -- `while lo < hi`; every round makes the range smaller.
  unfoldable pub search : List (ℤ × V) → ℤ → ℕ → ℕ → ℕ → ℕ
  unfolding is_before
  search series t zero lo hi = lo
  search series t (suc fuel) lo hi =
      let mid = (lo + hi) / 2 in
      let right = is_before series t mid in
      let found =
        search series t fuel (if right then mid + 1 else lo) (if right then hi else mid) in
      if ltb lo hi then found else lo

  -- The better of two rows for `t`, the first one on a tie.
  abbrev pub closer : ℤ → Option (ℤ × V) → ℤ × V → ℤ × V
  closer t none best = best
  closer t (some row) best = if ltb (dist_ℤ row.0 t) (dist_ℤ best.0 t) then row else best

  abbrev pub before : List (ℤ × V) → ℕ → Option (ℤ × V)
  before series zero = none
  before series (suc lo) = get_elem? series lo

  -- `nearest_at`
  unfoldable pub nearest_at : List (ℤ × V) → ℤ → Option (ℤ × V)
  unfolding search
  nearest_at series t =
      let lo = search series t (length series) 0 (length series - 1) in
      elim (get_elem? series lo) [
        | none ↦ none
        | some best ↦ some (closer t (before series lo) best)
      ]

  -- `bisect.bisect_left(series, (t,))`: the same search over the whole series, since a tuple of one
  -- element precedes every longer one that begins with it.
  unfoldable pub bisect_left : List (ℤ × V) → ℤ → ℕ
  unfolding search
  bisect_left series t = search series t (suc (length series)) 0 (length series)

  -- One candidate of `for j in (i - 1, i)`.
  unfoldable pub consider : ℕ → ℤ → Option (ℤ × V) → Option (ℕ × V) → Option (ℕ × V)
  consider tol t none best = best
  consider tol t (some row) none =
      let d = dist_ℤ row.0 t in if leb d tol then some (d, row.1) else none
  consider tol t (some row) (some best) =
      let d = dist_ℤ row.0 t in if leb d tol && ltb d best.0 then some (d, row.1) else some best

  -- `None if best is None else best[1]`
  abbrev pub value_of : Option (ℕ × V) → Option V
  value_of none = none
  value_of (some best) = some best.1

  -- `nearest_value`
  unfoldable pub nearest_value : ℕ → List (ℤ × V) → ℤ → Option V
  unfolding consider bisect_left
  nearest_value tol series t =
      let i = bisect_left series t in
      value_of (consider tol t (get_elem? series i) (consider tol t (before series i) none))
