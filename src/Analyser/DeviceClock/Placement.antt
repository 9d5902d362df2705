-- ===== src/Analyser/DeviceClock/Placement.antt =====
-- scripts/i2s-skew.py: which rows `place_device_times` places.
use esphome_snapcast.Base.{
  ℕ, suc, ◌+◌, ◌/◌, ◌<◌, ◌≡◌, refl, ◌∙◌, ap, sym, inl, inr, Bool, true, false, Option, none, some,
  List, [], ◌∷◌, ◌++◌, arith, length, map, concat, get_elem?-within, Bool-cases, Option-cases,
}
use mathlib.Core.Path.{ap₂}
use esphome_snapcast.Base.Int.{ℤ, pos, ◌-ℤ◌, leb_ℤ}
use esphome_snapcast.Analyser.Series.Gaps.{sorted, insert}
use esphome_snapcast.Analyser.DeviceClock.Place.{
  Row, epochs_from, diffs_of, median, place_at, place_epoch, place_epochs, place_device_times,
}
use esphome_snapcast.Analyser.DeviceClock.Epochs.{epochs_from-AllRising}

abbrev pub is_there {ℓ} : {A : Type ℓ} → Option A → Bool
is_there none = false
is_there (some _) = true

-- Which rows have a device time, and how many.
abbrev pub stamped : List Row → List Bool
stamped rows = map (λ (r : Row). is_there r.dev) rows

pub count : List Bool → ℕ
count [] = 0
count (true ∷ bs) = suc (count bs)
count (false ∷ bs) = count bs

length-insert : (x : ℤ) (xs : List ℤ) → length (insert x xs) ≡ suc (length xs)
length-insert x [] = refl
length-insert x (y ∷ ys) = elim (Bool-cases (leb_ℤ x y)) [
  | inl before ↦ rw before refl
  | inr after ↦ rw after (ap suc (length-insert x ys))
]

length-sorted : (xs : List ℤ) → length (sorted xs) ≡ length xs
unfolding sorted
length-sorted [] = refl
length-sorted (x ∷ xs) = length-insert x (sorted xs) ∙ ap suc (length-sorted xs)

median-some : (x : ℤ) (xs : List ℤ) → (m : ℤ) × (median (x ∷ xs) ≡ some m)
unfolding median
median-some x xs =
    let n = length (sorted (x ∷ xs)) in
    let half : suc (length xs) / 2 < suc (length xs) = omega arith in
    get_elem?-within (sorted (x ∷ xs)) (suc (length xs) / 2)
      (omega (arith, half, length-sorted (x ∷ xs)))

map-some : (off : ℤ) (rows : List Row) → map is_there (place_epoch (some off) rows) ≡ stamped rows
unfolding place_epoch
map-some off [] = refl
map-some off (r ∷ rows) = ap₂ ◌∷◌ (there off r.dev) (map-some off rows)
  where
    there : (o : ℤ) (dev : Option ℕ) → is_there (place_at o dev) ≡ is_there dev
    there o none = refl
    there o (some d) = refl

diffs_of-none : (r : Row) (rows : List Row) → r.dev ≡ none → diffs_of (r ∷ rows) ≡ diffs_of rows
unfolding diffs_of
diffs_of-none r rows e = ground (arith, e)

diffs_of-some :
    (r : Row) (rows : List Row) (d : ℕ)
    → r.dev ≡ some d
    → diffs_of (r ∷ rows) ≡ (r.host -ℤ pos d) ∷ diffs_of rows
unfolding diffs_of
diffs_of-some r rows d e = ground (arith, e)

map-none :
    (rows : List Row) → diffs_of rows ≡ [] → map is_there (place_epoch none rows) ≡ stamped rows
unfolding place_epoch
map-none [] h = refl
map-none (r ∷ rows) h = elim (Option-cases r.dev) [
  | inl e ↦ ap₂ ◌∷◌ (ap is_there (sym e)) (map-none rows (sym (diffs_of-none r rows e) ∙ h))
  | inr (d, e) ↦ absurd (cc (diffs_of-some r rows d e, h))
]

place_by :
    (rows : List Row) (diffs : List ℤ)
    → diffs_of rows ≡ diffs
    → map is_there (place_epoch (median diffs) rows) ≡ stamped rows
unfolding median
place_by rows [] e = map-none rows e
place_by rows (x ∷ xs) e = let (off, found) = median-some x xs in rw found (map-some off rows)

length-diffs_of : (rows : List Row) → length (diffs_of rows) ≡ count (stamped rows)
unfolding count
length-diffs_of [] = unfold diffs_of in refl
length-diffs_of (r ∷ rows) = elim (Option-cases r.dev) [
  | inl e ↦ rw (diffs_of-none r rows e, e) (length-diffs_of rows)
  | inr (d, e) ↦ rw (diffs_of-some r rows d e, e) (ap suc (length-diffs_of rows))
]

map-append : {A B : Type 0} (f : A → B) (xs ys : List A) → map f (xs ++ ys) ≡ map f xs ++ map f ys
map-append f [] ys = refl
map-append f (x ∷ xs) ys = ap (λ r. f x ∷ r) (map-append f xs ys)

count-append : (xs ys : List Bool) → count (xs ++ ys) ≡ count xs + count ys
unfolding count
count-append [] ys = omega arith
count-append (true ∷ xs) ys = omega (arith, count-append xs ys)
count-append (false ∷ xs) ys = count-append xs ys

place_epochs-stamped :
    (epochs : List (List Row))
    → (map is_there (place_epochs epochs).times ≡ stamped (concat epochs))
      × ((place_epochs epochs).n ≡ count (stamped (concat epochs)))
unfolding place_epochs
place_epochs-stamped [] = (refl, unfold count in refl)
place_epochs-stamped (epoch ∷ epochs) =
    let (times, n) = place_epochs-stamped epochs in
    let here = place_epoch (median (diffs_of epoch)) epoch in
    let dev = λ (r : Row). is_there r.dev in
    (
      map-append is_there here (place_epochs epochs).times
          ∙ ap₂ ◌++◌ (place_by epoch (diffs_of epoch) refl) times
          ∙ sym (map-append dev epoch (concat epochs)),
      rw (map-append dev epoch (concat epochs)) (
          omega (
            arith,
            n,
            length-diffs_of epoch,
            count-append (stamped epoch) (stamped (concat epochs)),
          )),
    )

-- Each row has its place in the result, which is a time exactly where the row has a device time; and
-- the number returned is the number of rows that have one.
pub place_device_times-stamped :
    (rows : List Row)
    → let placed = place_device_times rows in
      (map is_there placed.0 ≡ stamped rows) × (placed.1.1 ≡ count (stamped rows))
unfolding place_device_times
place_device_times-stamped rows =
    let (times, n) = place_epochs-stamped (epochs_from none [] rows) in
    let joined = (epochs_from-AllRising rows).0 in
    (times ∙ ap stamped joined, n ∙ ap (λ r. count (stamped r)) joined)
