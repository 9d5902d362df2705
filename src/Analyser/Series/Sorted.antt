-- ===== src/Analyser/Series/Sorted.antt =====
-- scripts/i2s-skew.py: the binary search over a series that is sorted by time.
use esphome_snapcast.Base.{
  ℕ, zero, suc, ◌+◌, ◌/◌, ◌≤◌, ◌<◌, ◌≡◌, refl, ◌∙◌, sym, inl, inr, true, false, some, List, arith,
  length, get_elem?, get_elem?-within, get_elem?-beyond, Option-cases, le_or_lt, Bool-cases,
}
use esphome_snapcast.Base.Int.{ℤ, ◌≤ℤ◌, ◌<ℤ◌, ◌-ℤ◌, dist_ℤ, ltb_ℤ}
use esphome_snapcast.Analyser.Series.Lookup.{is_before, search}

-- Of two times on the same side of `t`, the one closer to it.
dist-below : (a b t : ℤ) → a ≤ℤ b → b ≤ℤ t → dist_ℤ b t ≤ dist_ℤ a t
unfolding ◌-ℤ◌
dist-below a b t h k = ground arith

dist-above : (a b t : ℤ) → a ≤ℤ b → t ≤ℤ a → dist_ℤ a t ≤ dist_ℤ b t
unfolding ◌-ℤ◌
dist-above a b t h k = ground arith

half-below : (lo hi : ℕ) → lo < hi → (lo ≤ (lo + hi) / 2) × ((lo + hi) / 2 < hi)
half-below lo hi h = (omega arith, omega arith)

module _ {V : Type 0} where
  -- The rows stand in the order of their times.
  abbrev pub IsSorted : List (ℤ × V) → Type 0
  IsSorted series =
      (i j : ℕ) (a b : ℤ × V)
      → i ≤ j
      → get_elem? series i ≡ some a
      → get_elem? series j ≡ some b
      → a.0 ≤ℤ b.0

  pub lt_of_found :
      (series : List (ℤ × V)) (i j : ℕ) (row : ℤ × V)
      → i ≤ j
      → get_elem? series j ≡ some row
      → i < length series
  lt_of_found series i j row h e = elim (le_or_lt (length series) j) [
    | inl beyond ↦ absurd (cc (get_elem?-beyond series j beyond, e))
    | inr within ↦ omega arith
  ]

  -- Every row in front of `r` is before `t`, and none from `r` up to `bound` is.
  pub record Splits (series : List (ℤ × V)) (t : ℤ) (bound r : ℕ) : Type 0 where
    pub in_front : (k : ℕ) → k < r → is_before series t k ≡ true
    pub behind : (k : ℕ) → r ≤ k → k < bound → is_before series t k ≡ false

  search_step :
      (series : List (ℤ × V)) (t : ℤ) (fuel lo hi : ℕ)
      → lo < hi
      → let mid = (lo + hi) / 2 in
        (is_before series t mid ≡ true
          → search series t (suc fuel) lo hi ≡ search series t fuel (mid + 1) hi)
        × (is_before series t mid ≡ false
            → search series t (suc fuel) lo hi ≡ search series t fuel lo mid)
  unfolding search
  search_step series t fuel lo hi h = (λ e. ground (arith, e), λ e. ground (arith, e))

  search_stop :
      (series : List (ℤ × V)) (t : ℤ) (fuel lo hi : ℕ) → hi ≤ lo → search series t fuel lo hi ≡ lo
  unfolding search
  search_stop series t zero lo hi h = refl
  search_stop series t (suc fuel) lo hi h = ground arith

  pub row_before :
      (series : List (ℤ × V)) (t : ℤ) (i : ℕ) (row : ℤ × V)
      → get_elem? series i ≡ some row
      → is_before series t i ≡ ltb_ℤ row.0 t
  unfolding is_before
  row_before series t i row e = ground (arith, e)

  before_row :
      (series : List (ℤ × V)) (t : ℤ) (j : ℕ)
      → is_before series t j ≡ true
      → (row : ℤ × V) × (get_elem? series j ≡ some row) × (row.0 <ℤ t)
  unfolding is_before
  before_row series t j h = elim (Option-cases (get_elem? series j)) [
    | inl e ↦ absurd (cc (h, e))
    | inr (row, e) ↦ (row, e, ground (arith, e))
  ]

  before-IsSorted :
      (series : List (ℤ × V)) (t : ℤ)
      → IsSorted series
      → (i j : ℕ) → i ≤ j
      → is_before series t j ≡ true
      → is_before series t i ≡ true
  before-IsSorted series t sorted i j h e =
      let (row_j, found_j, early) = before_row series t j e in
      let (row_i, found_i) = get_elem?-within series i (lt_of_found series i j row_j h found_j) in
      let order = sorted i j row_i row_j h found_i found_j in
      row_before series t i row_i found_i ∙ ground (arith, order, early)

  late_behind :
      (series : List (ℤ × V)) (t : ℤ)
      → IsSorted series
      → (mid k : ℕ) → mid ≤ k
      → is_before series t mid ≡ false
      → is_before series t k ≡ false
  late_behind series t sorted mid k h late = elim (Bool-cases (is_before series t k)) [
    | inl early ↦ absurd (cc (late, before-IsSorted series t sorted mid k h early))
    | inr behind ↦ behind
  ]

  pub search-Splits :
      (series : List (ℤ × V)) (t : ℤ) (bound fuel lo hi : ℕ)
      → IsSorted series
      → hi < lo + fuel
      → lo ≤ hi
      → hi ≤ bound
      → ((k : ℕ) → k < lo → is_before series t k ≡ true)
      → ((k : ℕ) → hi ≤ k → k < bound → is_before series t k ≡ false)
      → let r = search series t fuel lo hi in (lo ≤ r) × (r ≤ hi) × Splits series t bound r
  search-Splits series t bound zero lo hi sorted enough h inside front back = absurd (omega arith)
  search-Splits series t bound (suc fuel) lo hi sorted enough h inside front back =
      elim (le_or_lt hi lo) [
        | inl done ↦ rw (search_stop series t (suc fuel) lo hi done) (
          omega arith,
          omega arith,
          record { in_front = front; behind = λ k low high. back k (omega arith) high },
        )
        | inr room ↦
            let mid = (lo + hi) / 2 in
            let (mid_low, mid_high) = half-below lo hi room in
            elim (Bool-cases (is_before series t mid)) [
              | inl early ↦
                  let (low, high, splits) =
                    search-Splits series t bound fuel (mid + 1) hi sorted (omega arith)
                      (omega arith) inside
                      (λ k near. before-IsSorted series t sorted k mid (omega arith) early) back in
                  rw ((search_step series t fuel lo hi room).0 early) (omega arith, high, splits)
              | inr late ↦
                  let (low, high, splits) =
                    search-Splits series t bound fuel lo mid sorted (omega arith) mid_low
                      (omega arith) front
                      (λ k near far. late_behind series t sorted mid k near late) in
                  rw ((search_step series t fuel lo hi room).1 late) (low, omega arith, splits)
            ]
      ]

  -- A row of the series, none of which is closer to `t`.
  pub record IsNearest (series : List (ℤ × V)) (t : ℤ) (best : ℤ × V) : Type 0 where
    pub index : ℕ
    pub found : get_elem? series index ≡ some best
    pub nearest :
        (i : ℕ) (row : ℤ × V) → get_elem? series i ≡ some row → dist_ℤ best.0 t ≤ dist_ℤ row.0 t

  pub in_front-below :
      (series : List (ℤ × V)) (t : ℤ) (bound p : ℕ) (prev : ℤ × V)
      → IsSorted series
      → Splits series t bound (suc p)
      → get_elem? series p ≡ some prev
      → (i : ℕ) (row : ℤ × V) → i ≤ p
      → get_elem? series i ≡ some row
      → dist_ℤ prev.0 t ≤ dist_ℤ row.0 t
  in_front-below series t bound p prev sorted splits found i row h e =
      let early : ltb_ℤ prev.0 t ≡ true =
        sym (row_before series t p prev found) ∙ splits.in_front p (omega arith) in
      dist-below row.0 prev.0 t (sorted i p row prev h e found) (ground (arith, early))

  pub behind-above :
      (series : List (ℤ × V)) (t : ℤ) (bound r : ℕ) (best : ℤ × V)
      → IsSorted series
      → Splits series t bound r
      → r < bound
      → get_elem? series r ≡ some best
      → (i : ℕ) (row : ℤ × V) → r ≤ i
      → get_elem? series i ≡ some row
      → dist_ℤ best.0 t ≤ dist_ℤ row.0 t
  behind-above series t bound r best sorted splits inside found i row h e =
      let late : ltb_ℤ best.0 t ≡ false =
        sym (row_before series t r best found) ∙ splits.behind r (omega arith) inside in
      dist-above best.0 row.0 t (sorted r i best row h found e) (ground (arith, late))
