-- ===== src/DinSkew/Straddled.antt =====
-- scripts/din-skew.py: the samples that `edge_times` interpolates between.
use mathlib.Core.Path.{subst}
use mathlib.Core.List.{append_assoc}
use esphome_snapcast.Base.{
  ℕ, zero, suc, ◌-◌, ◌≤◌, ◌<◌, ◌≡◌, ◌⊎◌, refl, sym, ◌∙◌, ap, inl, inr, Bool, true, false, some,
  List, [], ◌∷◌, ◌++◌, arith, ltb, ltb→lt, if◌then◌else◌, map, get_or, get_elem?, length,
  length-append, Bool-cases, le_or_lt, min,
}
use esphome_snapcast.Base.Int.{pos}
use esphome_snapcast.Base.Float.{Float}
use esphome_snapcast.DinSkew.Schmitt.{Sample, Levels, levels_of, sample_of, samples_of, binarize}
use esphome_snapcast.DinSkew.Levels.{trigger, schmitt, binarize-schmitt}
use esphome_snapcast.DinSkew.Edges.{
  same_level, flips_from, flips, walk_back, max_back, sample_at, on_side, left_of, flips_of,
}

-- How far the walk back from `i` gets: over samples on the side only, down to one that is not or to
-- the limit.
abbrev pub IsWalked : (ℕ → Bool) → ℕ → ℕ → ℕ → Type 0
IsWalked on lim i j =
    (j ≤ i)
    × (min lim i ≤ j)
    × ((m : ℕ) → j < m → m ≤ i → on m ≡ true)
    × ((on j ≡ false) ⊎ (j ≤ lim))

walk_back-IsWalked : (on : ℕ → Bool) (lim i : ℕ) → IsWalked on lim i (walk_back on lim i)
unfolding walk_back
walk_back-IsWalked on lim zero =
    (omega arith, omega arith, λ m a b. absurd (omega arith), inr (omega arith))
walk_back-IsWalked on lim (suc j) = elim (Bool-cases (ltb lim (suc j))) [
  | inl above ↦ elim (Bool-cases (on (suc j))) [
    | inl side ↦
        let (upper, lower, between, stop) = walk_back-IsWalked on lim j in
        let lt : lim < suc j = ltb→lt lim (suc j) above in
        rw (above, side)
          (
            omega arith,
            omega arith,
            λ m a b. elim (le_or_lt m j) [
              | inl le ↦ between m a le
              | inr gt ↦ let e : m ≡ suc j = omega arith in ap on e ∙ side
            ],
            stop,
          )
    | inr off ↦ rw (above, off) (omega arith, omega arith, λ m a b. absurd (omega arith), inl off)
  ]
  | inr low ↦
      let le : suc j ≤ lim = ground arith in
      rw low (omega arith, omega arith, λ m a b. absurd (omega arith), inr le)
]

abbrev pub Every : {A : Type 0} → (A → Type 0) → List A → Type 0
Every P [] = Unit
Every P (x ∷ xs) = P x × Every P xs

Every-map :
    {A : Type 0} (P Q : A → Type 0) (xs : List A) → ((x : A) → P x → Q x) → Every P xs → Every Q xs
Every-map P Q [] f h = tt
Every-map P Q (x ∷ xs) f (here, h) = (f x here, Every-map P Q xs f h)

-- The sample behind a flip is beyond the band, on the side that the level flips to.
abbrev IsDecided : List Sample → ℕ × Bool → Type 0
IsDecided full f =
    (s : Sample) × (get_elem? full (suc f.0) ≡ some s)
    × (((s.above ≡ true) × (f.1 ≡ true)) ⊎ ((s.below ≡ true) × (f.1 ≡ false)))

trigger-moved :
    (state above below : Bool)
    → same_level state (if above then true else if below then false else state) ≡ false
    → ((above ≡ true) × ((if above then true else if below then false else state) ≡ true))
      ⊎ ((below ≡ true) × ((if above then true else if below then false else state) ≡ false))
trigger-moved state true below h = inl (refl, refl)
trigger-moved state false true h = inr (refl, refl)
trigger-moved true false false h = cc h
trigger-moved false false false h = cc h

get_elem?-middle :
    (front ss : List Sample) (s : Sample) (k : ℕ)
    → length front ≡ k
    → get_elem? (front ++ s ∷ ss) k ≡ some s
get_elem?-middle front ss s k e =
    subst (λ k. get_elem? (front ++ s ∷ ss) k ≡ some s) e (at_end front)
  where
    at_end : (front : List Sample) → get_elem? (front ++ s ∷ ss) (length front) ≡ some s
    at_end [] = refl
    at_end (x ∷ front) = at_end front

flips_from-IsDecided :
    (front ss : List Sample) (state : Bool) (k : ℕ)
    → length front ≡ suc k
    → Every (IsDecided (front ++ ss)) (flips_from k state (schmitt state ss))
unfolding flips_from
flips_from-IsDecided front [] state k e = tt
flips_from-IsDecided front (s ∷ ss) state k e =
    let longer : length (front ++ s ∷ []) ≡ suc (suc k) =
      omega (arith, length-append front (s ∷ [])) in
    let later : Every (IsDecided (front ++ s ∷ ss))
        (flips_from (suc k) (trigger state s) (schmitt (trigger state s) ss)) =
      subst
        (λ full.
          Every (IsDecided full)
            (flips_from (suc k) (trigger state s) (schmitt (trigger state s) ss)))
        (append_assoc front (s ∷ []) ss)
        (flips_from-IsDecided (front ++ s ∷ []) ss (trigger state s) (suc k) longer) in
    elim (Bool-cases (same_level state (trigger state s))) [
      | inl same ↦ rw same later
      | inr moved ↦ rw moved (
        (s, get_elem?-middle front ss s (suc k) e, trigger-moved state s.above s.below moved),
        later,
      )
    ]

flips-IsDecided : (ss : List Sample) → Every (IsDecided ss) (flips (binarize ss))
flips-IsDecided ss =
    subst (λ ds. Every (IsDecided ss) (flips ds)) (sym (binarize-schmitt ss)) (of_schmitt ss)
  where
    of_schmitt : (ss : List Sample) → Every (IsDecided ss) (flips (schmitt false ss))
    of_schmitt [] = tt
    of_schmitt (s ∷ ss) = flips_from-IsDecided (s ∷ []) ss (trigger false s) 0 refl

true_or_false : true ≡ false → ⊥
true_or_false e = cc e

module _ (fl : Float) where
  open fl use {F, add, sub, lt, le}

  get_elem?-sample :
      (l : Levels fl) (xs : List F) (i : ℕ) (s : Sample) (d : F)
      → get_elem? (map (sample_of fl l) xs) i ≡ some s
      → (i < length xs) × (s ≡ sample_of fl l (get_or xs i d))
  get_elem?-sample l [] i s d e = cc e
  get_elem?-sample l (x ∷ xs) zero s d e = (omega arith, cc e)
  get_elem?-sample l (x ∷ xs) (suc i) s d e =
      let (at, same) = get_elem?-sample l xs i s d e in (omega arith, same)

  -- The band lies around the middle: what is beyond it is on its side of the middle.
  abbrev pub IsBand : Levels fl → Type 0
  IsBand l =
      (x : F)
      → (lt (add l.mid l.band) x ≡ true → le l.mid x ≡ true)
        × (lt x (sub l.mid l.band) ≡ true → le l.mid x ≡ false)

  -- The sample `j` is the one in front of the crossing of the transition `f`, which is between `f.0` and
  -- the sample behind it: it is at most `max_back` before `f.0`; the samples behind it up to the one
  -- behind `f.0` are on the new side of the middle; and it is on the old side, or the limit.
  abbrev pub IsCrossing : F → List F → ℕ × Bool → ℕ → Type 0
  IsCrossing mid xs f j =
      (j ≤ f.0)
      × (f.0 - max_back ≤ j)
      × (suc f.0 < length xs)
      × ((m : ℕ) → j < m → m ≤ suc f.0 → on_side fl mid xs f.1 m ≡ true)
      × ((on_side fl mid xs f.1 j ≡ false) ⊎ (j ≡ f.0 - max_back))

  abbrev pub Straddles : F → List F → ℕ × Bool → Type 0
  Straddles mid xs f = IsCrossing mid xs f (left_of fl mid xs f)

  decided-on_side :
      (l : Levels fl) (xs : List F) (f : ℕ × Bool)
      → IsBand l
      → IsDecided (map (sample_of fl l) xs) f
      → (suc f.0 < length xs) × (on_side fl l.mid xs f.1 (suc f.0) ≡ true)
  unfolding sample_of
  decided-on_side l xs (i, rising) band (s, at, inl (above, up)) =
      let (inside, same) = get_elem?-sample l xs (suc i) s (fl.of_int (pos 0)) at in
      let high : le l.mid (sample_at fl xs (suc i)) ≡ true =
        (band (sample_at fl xs (suc i))).0 (sym (ap (λ (s : Sample). s.above) same) ∙ above) in
      (inside, rw (high, up) refl)
  decided-on_side l xs (i, rising) band (s, at, inr (below, down)) =
      let (inside, same) = get_elem?-sample l xs (suc i) s (fl.of_int (pos 0)) at in
      let low : le l.mid (sample_at fl xs (suc i)) ≡ false =
        (band (sample_at fl xs (suc i))).1 (sym (ap (λ (s : Sample). s.below) same) ∙ below) in
      (inside, rw (low, down) refl)

  IsWalked-IsCrossing :
      (mid : F) (xs : List F) (f : ℕ × Bool) (j : ℕ)
      → IsWalked (on_side fl mid xs f.1) (f.0 - max_back) (suc f.0) j
      → suc f.0 < length xs
      → on_side fl mid xs f.1 (suc f.0) ≡ true
      → IsCrossing mid xs f j
  IsWalked-IsCrossing mid xs f j (upper, lower, between, inl off) inside on =
      elim (le_or_lt j f.0) [
        | inl before ↦ (before, omega arith, inside, between, inl off)
        | inr after ↦
            let e : j ≡ suc f.0 = omega arith in
            absurd (true_or_false (sym (ap (on_side fl mid xs f.1) e ∙ on) ∙ off))
      ]
  IsWalked-IsCrossing mid xs f j (upper, lower, between, inr low) inside on =
      (omega arith, omega arith, inside, between, inr (omega arith))

  -- Where the band lies around the middle, each transition is a crossing.
  pub flips_of-Straddles :
      (hyst_frac lo hi : F) (xs : List F)
      → IsBand (levels_of fl hyst_frac lo hi)
      → Every (Straddles (levels_of fl hyst_frac lo hi).mid xs) (flips_of fl hyst_frac lo hi xs)
  unfolding flips_of samples_of
  flips_of-Straddles hyst_frac lo hi xs band =
      let l = levels_of fl hyst_frac lo hi in
      Every-map (IsDecided (map (sample_of fl l) xs)) (Straddles l.mid xs)
        (flips (binarize (map (sample_of fl l) xs)))
        (λ f decided.
          let (inside, on) = decided-on_side l xs f band decided in
          IsWalked-IsCrossing l.mid xs f (left_of fl l.mid xs f)
            (walk_back-IsWalked (on_side fl l.mid xs f.1) (f.0 - max_back) (suc f.0)) inside on)
        (flips-IsDecided (map (sample_of fl l) xs))
