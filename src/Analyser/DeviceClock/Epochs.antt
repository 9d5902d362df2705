-- ===== src/Analyser/DeviceClock/Epochs.antt =====
-- scripts/i2s-skew.py: the epochs of `place_device_times`, and which rows are placed.
use mathlib.Core.List.{append_assoc}
use mathlib.Core.Path.{subst}
use esphome_snapcast.Base.{
  ℕ, ◌≤◌, ◌≡◌, refl, ◌∙◌, ap, sym, inl, inr, true, false, arith, ltb, Option-cases, Option, none,
  some, List, [], ◌∷◌, ◌++◌, concat, Bool-cases,
}
use esphome_snapcast.Analyser.DeviceClock.Place.{Row, went_back, or_prev, epochs_from}

abbrev pub with_dev : Option ℕ → List ℕ → List ℕ
with_dev none ds = ds
with_dev (some d) ds = d ∷ ds

-- The device times of the rows, without the rows that have none.
abbrev pub dev_times : List Row → List ℕ
dev_times [] = []
dev_times (r ∷ rows) = with_dev r.dev (dev_times rows)

-- Each number is at least the one before it.
abbrev pub Ascends : List ℕ → Type 0
Ascends [] = Unit
Ascends (d ∷ []) = Unit
Ascends (d ∷ e ∷ ds) = (d ≤ e) × Ascends (e ∷ ds)

-- Behind the device time `prev`, no device time of the rows is less than the one before it.
abbrev Rising : Option ℕ → List Row → Type 0
Rising prev [] = Unit
Rising prev (r ∷ rows) = (went_back prev r.dev ≡ false) × Rising (or_prev prev r.dev) rows

Rising-Ascends_behind :
    (p : ℕ) (rows : List Row) → Rising (some p) rows → Ascends (p ∷ dev_times rows)
Rising-Ascends_behind p [] h = tt
Rising-Ascends_behind p (r ∷ rows) (h, hs) = elim (Option-cases r.dev) [
  | inl absent ↦
      rw absent
        (Rising-Ascends_behind p rows (subst (λ o. Rising (or_prev (some p) o) rows) absent hs))
  | inr (d, present) ↦
      let not_back : ltb d p ≡ false = ap (went_back (some p)) (sym present) ∙ h in
      rw present (
        ground (arith, not_back),
        Rising-Ascends_behind d rows (subst (λ o. Rising (or_prev (some p) o) rows) present hs),
      )
]

Rising-Ascends : (rows : List Row) → Rising none rows → Ascends (dev_times rows)
Rising-Ascends [] h = tt
Rising-Ascends (r ∷ rows) (h, hs) = elim (Option-cases r.dev) [
  | inl absent ↦
      rw absent (Rising-Ascends rows (subst (λ o. Rising (or_prev none o) rows) absent hs))
  | inr (d, present) ↦
      rw present
        (Rising-Ascends_behind d rows (subst (λ o. Rising (or_prev none o) rows) present hs))
]

abbrev pub AllRising : List (List Row) → Type 0
AllRising [] = Unit
AllRising (epoch ∷ epochs) = Ascends (dev_times epoch) × AllRising epochs

abbrev last_dev : Option ℕ → List Row → Option ℕ
last_dev prev [] = prev
last_dev prev (r ∷ rows) = last_dev (or_prev prev r.dev) rows

Rising-snoc :
    (prev : Option ℕ) (rows : List Row) (r : Row)
    → Rising prev rows
    → went_back (last_dev prev rows) r.dev ≡ false
    → Rising prev (rows ++ r ∷ [])
Rising-snoc prev [] r h e = (e, tt)
Rising-snoc prev (x ∷ rows) r (h, hs) e = (h, Rising-snoc (or_prev prev x.dev) rows r hs e)

last_dev-snoc :
    (prev : Option ℕ) (rows : List Row) (r : Row)
    → last_dev prev (rows ++ r ∷ []) ≡ or_prev (last_dev prev rows) r.dev
last_dev-snoc prev [] r = refl
last_dev-snoc prev (x ∷ rows) r = last_dev-snoc (or_prev prev x.dev) rows r

epochs_from-cut :
    (prev : Option ℕ) (cur : List Row) (r : Row) (rows : List Row)
    → went_back prev r.dev ≡ true
    → epochs_from prev cur (r ∷ rows) ≡ cur ∷ epochs_from (or_prev prev r.dev) (r ∷ []) rows
unfolding epochs_from
epochs_from-cut prev cur r rows h = rw h refl

epochs_from-join :
    (prev : Option ℕ) (cur : List Row) (r : Row) (rows : List Row)
    → went_back prev r.dev ≡ false
    → epochs_from prev cur (r ∷ rows) ≡ epochs_from (or_prev prev r.dev) (cur ++ r ∷ []) rows
unfolding epochs_from
epochs_from-join prev cur r rows h = rw h refl

alone : (prev dev : Option ℕ) → went_back prev dev ≡ true → or_prev none dev ≡ or_prev prev dev
alone prev none h = cc h
alone prev (some d) h = refl

alone_rises : (dev : Option ℕ) → went_back none dev ≡ false
alone_rises none = refl
alone_rises (some d) = refl

record AreEpochs (rows : List Row) (epochs : List (List Row)) : Type 0 where
  joined : concat epochs ≡ rows
  rising : AllRising epochs

epochs_from-AreEpochs :
    (prev : Option ℕ) (cur rows : List Row)
    → Rising none cur
    → last_dev none cur ≡ prev
    → AreEpochs (cur ++ rows) (epochs_from prev cur rows)
epochs_from-AreEpochs prev cur [] h e = record {
  joined = unfold epochs_from in refl;
  rising = unfold epochs_from in (Rising-Ascends cur h, tt);
}
epochs_from-AreEpochs prev cur (r ∷ rows) h e = elim (Bool-cases (went_back prev r.dev)) [
  | inl back ↦
      let rest =
        epochs_from-AreEpochs (or_prev prev r.dev) (r ∷ []) rows (alone_rises r.dev, tt)
          (alone prev r.dev back) in
      rw (epochs_from-cut prev cur r rows back) (record {
        joined = ap (λ xs. cur ++ xs) rest.joined;
        rising = (Rising-Ascends cur h, rest.rising);
      })
  | inr on ↦
      let rest =
        epochs_from-AreEpochs (or_prev prev r.dev) (cur ++ r ∷ []) rows
          (Rising-snoc none cur r h (rw e on)) (last_dev-snoc none cur r ∙ rw e refl) in
      rw (epochs_from-join prev cur r rows on)
        (record { joined = rest.joined ∙ append_assoc cur (r ∷ []) rows; rising = rest.rising })
]

-- The epochs are the rows in order, none of them lost, and within one the device clock never runs
-- backwards: each
-- device time is at least the one before it, rows without one apart.
pub epochs_from-AllRising :
    (rows : List Row)
    → (concat (epochs_from none [] rows) ≡ rows) × AllRising (epochs_from none [] rows)
epochs_from-AllRising rows =
    let e = epochs_from-AreEpochs none [] rows tt refl in (e.joined, e.rising)
