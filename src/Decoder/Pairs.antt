-- ===== src/Decoder/Pairs.antt =====
-- scripts/decoders/i2s_skew/pd.py: the lag that a window is matched at, and the frames it pairs.
use esphome_snapcast.Base.{
  ℕ, suc, ◌+◌, ◌-◌, ◌≤◌, ◌<◌, min, max, ◌≡◌, ◌∙◌, none, some, List, [], ◌∷◌, arith, length,
  range_from, length-range_from, length-map, get_elem?-beyond, get_elem?-within, le_or_lt, inl, inr,
}
use esphome_snapcast.Base.Int.{ℤ, pos, negsuc, sub_ℕ, abs_ℤ}
use esphome_snapcast.Base.Float.{Float}
use esphome_snapcast.Decoder.Correlation.{correlations, corr_full, argmax_from, argmax}
use esphome_snapcast.Decoder.Window.{partner, deltas_from}

module _ (fl : Float) where
  open fl use {F, lt, abs}

  argmax_from-lt :
      (n : ℕ) (xs : List F) (best_i : ℕ) (best : F) (i : ℕ)
      → best_i < n
      → i + length xs ≤ n
      → argmax_from fl best_i best i xs < n
  unfolding argmax_from
  argmax_from-lt n [] best_i best i h k = h
  argmax_from-lt n (x ∷ xs) best_i best i h k =
      argmax_from-lt n xs _ _ (suc i) (ground arith) (omega arith)

  pub argmax-lt : (xs : List F) → 0 < length xs → argmax fl xs < length xs
  unfolding argmax
  argmax-lt [] h = elim h [ ]
  argmax-lt (x ∷ xs) h = argmax_from-lt (length (x ∷ xs)) xs 0 (abs x) 1 (omega arith) (omega arith)

  length-correlations :
      (n lags : ℕ) (an bn : List F) (na nb : F)
      → length (correlations fl n lags an bn na nb) ≡ lags + lags + 1
  unfolding correlations
  length-correlations n lags an bn na nb =
      length-map (range_from 0 (lags + lags + 1)) _ ∙ length-range_from 0 (lags + lags + 1)

  -- A correlation has one value for each lag from `- zero_idx` to `zero_idx`.
  pub length-corr_full :
      (max_lag : ℕ) (a b : List ℤ) {corr : List F} {zero_idx : ℕ}
      → corr_full fl max_lag a b ≡ (some corr, zero_idx)
      → (length corr ≡ zero_idx + zero_idx + 1) × (zero_idx ≡ min max_lag (length a - 1))
  unfolding corr_full
  length-corr_full max_lag a b h = grind (arith, length-correlations)

-- A peak at one of the `2 * zero_idx + 1` indices is a lag of at most `zero_idx` frames.
pub abs_ℤ-sub_ℕ :
    (zero_idx peak : ℕ) → peak < zero_idx + zero_idx + 1 → abs_ℤ (sub_ℕ zero_idx peak) ≤ zero_idx
abs_ℤ-sub_ℕ zero_idx peak h = ground arith

deltas_from-unpaired :
    (i t : ℕ) (ta tb : List ℕ) (lag : ℤ)
    → partner tb i lag ≡ none
    → length (deltas_from i (t ∷ ta) tb lag) ≡ length (deltas_from (suc i) ta tb lag)
unfolding deltas_from
deltas_from-unpaired i t ta tb lag h = ground arith

deltas_from-paired :
    (i t u : ℕ) (ta tb : List ℕ) (lag : ℤ)
    → partner tb i lag ≡ some u
    → length (deltas_from i (t ∷ ta) tb lag) ≡ suc (length (deltas_from (suc i) ta tb lag))
unfolding deltas_from
deltas_from-paired i t u ta tb lag h = ground arith

-- From index `i` on, a window of `n` frames has `n - |lag|` pairs in all.
length-deltas_later :
    (n k i : ℕ) (ta tb : List ℕ)
    → i + length ta ≡ n
    → length tb ≡ n
    → length (deltas_from i ta tb (pos k)) ≡ n - k - i
unfolding partner
length-deltas_later n k i [] tb h e = unfold deltas_from in omega arith
length-deltas_later n k i (t ∷ ta) tb h e =
    let rest = length-deltas_later n k (suc i) ta tb (omega arith) e in
    elim (le_or_lt (length tb) (i + k)) [
      | inl out ↦
          omega
            (arith, rest, deltas_from-unpaired i t ta tb (pos k) (get_elem?-beyond tb (i + k) out))
      | inr in_range ↦
          let (u, found) = get_elem?-within tb (i + k) in_range in
          omega (arith, rest, deltas_from-paired i t u ta tb (pos k) found)
    ]

length-deltas_earlier :
    (n k i : ℕ) (ta tb : List ℕ)
    → i + length ta ≡ n
    → length tb ≡ n
    → length (deltas_from i ta tb (negsuc k)) ≡ n - max i (suc k)
unfolding partner
length-deltas_earlier n k i [] tb h e = unfold deltas_from in omega arith
length-deltas_earlier n k i (t ∷ ta) tb h e =
    let rest = length-deltas_earlier n k (suc i) ta tb (omega arith) e in
    elim (le_or_lt i k) [
      | inl early ↦ omega (arith, rest, deltas_from-unpaired i t ta tb (negsuc k) (ground arith))
      | inr late ↦
          let (u, found) = get_elem?-within tb (i - suc k) (omega arith) in
          omega (arith, rest, deltas_from-paired i t u ta tb (negsuc k) (ground arith))
    ]

-- Two windows of `n` frames matched at a lag pair `n - |lag|` of them, none twice.
pub length-deltas_from :
    (ta tb : List ℕ) (lag : ℤ)
    → length tb ≡ length ta
    → length (deltas_from 0 ta tb lag) ≡ length ta - abs_ℤ lag
length-deltas_from ta tb (pos k) e =
    omega (arith, length-deltas_later (length ta) k 0 ta tb (omega arith) e)
length-deltas_from ta tb (negsuc k) e =
    omega (arith, length-deltas_earlier (length ta) k 0 ta tb (omega arith) e)
