-- ===== src/Analyser/Series/Diffs.antt =====
-- scripts/i2s-skew.py: `pair_diff` and `trim_diff`. Times and durations are whole milliseconds; the
-- values are floats.
use esphome_snapcast.Base.{
  ℕ, Bool, true, false, ◌||◌, Option, none, some, List, [], ◌∷◌, ltb, if◌then◌else◌,
}
use esphome_snapcast.Base.Int.{ℤ, pos, ◌-ℤ◌, ◌*ℤ◌, ltb_ℤ, leb_ℤ, dist_ℤ}
use esphome_snapcast.Base.Float.{Float}
use esphome_snapcast.Analyser.Series.Lookup.{nearest_at}
use esphome_snapcast.Analyser.Series.Gaps.{max_ℤ}

-- `PAIR_WINDOW_S`
abbrev pub pair_window : ℕ
pair_window = 1800

-- The row of `b` for the time `t`, unless the nearest is too far off.
unfoldable pub partner_at : {V : Type 0} → List (ℤ × V) → ℤ → Option (ℤ × V)
partner_at b t = elim (nearest_at b t) [
  | none ↦ none
  | some hit ↦ if ltb pair_window (dist_ℤ hit.0 t) then none else some hit
]

-- Both values, if there are both.
abbrev pub both {ℓ} : {A B C : Type ℓ} → (A → B → C) → Option A → Option B → Option C
both f none b = none
both f (some a) none = none
both f (some a) (some b) = some (f a b)

-- `pair_diff`, where `diff` is `to_ppm` if that is given, and `vb - va` if not
module _ {F : Type 0} (diff : F → F → F) where
  unfoldable pub pair_diff : List (ℤ × Option F) → List (ℤ × Option F) → List (ℤ × F)
  unfolding partner_at
  pair_diff [] b = []
  pair_diff (row ∷ a) b =
      let rest = pair_diff a b in
      elim (partner_at b row.0) [
        | none ↦ rest
        | some hit ↦ elim (both diff row.1 hit.1) [ none ↦ rest | some d ↦ (row.0, d) ∷ rest ]
      ]

-- A trim window: the mean, if a trim was programmed, and the audio time.
pub record TrimRow (F : Type 0) : Type 0 where
  pub mean : Option F
  pub audio : ℤ

-- A pair of windows: the differential, and the shorter audio time.
pub record Paired (F : Type 0) : Type 0 where
  pub diff : F
  pub audio : ℤ

pub record Diffs (F : Type 0) : Type 0 where
  pub out : List (ℤ × F)
  pub breaks : List ℤ

-- `dt <= 0 or min(audio_a, audio_b) < dt - slack`, with `slack` 15 % of `dt` or 50 ms, in
-- hundredths of a millisecond
unfoldable pub falls_short : Option ℤ → ℤ → ℤ → Bool
falls_short none t audio = false
falls_short (some prev) t audio =
    let dt = t -ℤ prev in
    leb_ℤ dt (pos 0) || ltb_ℤ (pos 100 *ℤ audio) (pos 100 *ℤ dt -ℤ max_ℤ (pos 15 *ℤ dt) (pos 5000))

abbrev pub min_ℤ : ℤ → ℤ → ℤ
min_ℤ a b = if leb_ℤ a b then a else b

module _ (fl : Float) where
  open fl use {F, sub}

  -- The pair of one window of `a`, if it has one and both have a mean.
  unfoldable pub paired_with : List (ℤ × TrimRow F) → ℤ × TrimRow F → Option (Paired F)
  unfolding partner_at
  paired_with b row = elim (partner_at b row.0) [
    | none ↦ none
    | some hit ↦
        both
          (λ mean_a mean_b. record {
            diff = sub mean_b mean_a;
            audio = min_ℤ row.1.audio hit.1.audio;
          })
          row.1.mean hit.1.mean
  ]

  -- `breaks.append(t)`, if the break is pending
  abbrev pub emit : Bool → ℤ → F → Diffs F → Diffs F
  emit true t d rest = record { out = (t, d) ∷ rest.out; breaks = t ∷ rest.breaks }
  emit false t d rest = record { out = (t, d) ∷ rest.out; breaks = rest.breaks }

  -- The loop, with `prev_t` and `pending`.
  unfoldable pub trim_from : List (ℤ × TrimRow F) → Option ℤ → Bool → List (ℤ × TrimRow F) → Diffs F
  trim_from b prev_t pending [] = record { out = []; breaks = [] }
  trim_from b prev_t pending (row ∷ a) = elim (paired_with b row) [
    | none ↦ trim_from b none true a
    | some p ↦
        emit (pending || falls_short prev_t row.0 p.audio) row.0 p.diff
          (trim_from b (some row.0) false a)
  ]

  unfoldable pub trim_diff : List (ℤ × TrimRow F) → List (ℤ × TrimRow F) → Diffs F
  trim_diff a b = trim_from b none false a
