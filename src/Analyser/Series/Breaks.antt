-- ===== src/Analyser/Series/Breaks.antt =====
-- scripts/i2s-skew.py: where `trim_diff` breaks its series.
use esphome_snapcast.Base.{
  suc, ◌≡◌, refl, ap, inl, inr, Bool, true, false, ◌||◌, Option, none, some, List, [], ◌∷◌, ◌++◌,
  arith, length, map, Option-cases,
}
use esphome_snapcast.Base.Int.{ℤ}
use esphome_snapcast.Base.Float.{Float}
use esphome_snapcast.Analyser.Series.Diffs.{
  TrimRow, Paired, Diffs, falls_short, paired_with, emit, trim_from, trim_diff,
}

module _ (fl : Float) (b : List (ℤ × TrimRow fl.F)) where
  open fl use {F}

  -- No window of the list has a pair.
  abbrev pub AllDropped : List (ℤ × TrimRow F) → Type 0
  AllDropped [] = Unit
  AllDropped (row ∷ rows) = (paired_with fl b row ≡ none) × AllDropped rows

  abbrev pub Breaks : ℤ → List ℤ → Type 0
  Breaks t breaks = (front back : List ℤ) × (breaks ≡ front ++ t ∷ back)

  drop_step :
      (prev_t : Option ℤ) (pending : Bool) (row : ℤ × TrimRow F) (a : List (ℤ × TrimRow F))
      → paired_with fl b row ≡ none
      → trim_from fl b prev_t pending (row ∷ a) ≡ trim_from fl b none true a
  unfolding trim_from
  drop_step prev_t pending row a e = ground (arith, e)

  pair_step :
      (prev_t : Option ℤ) (pending : Bool) (row : ℤ × TrimRow F) (p : Paired F)
      (a : List (ℤ × TrimRow F))
      → paired_with fl b row ≡ some p
      → trim_from fl b prev_t pending (row ∷ a)
        ≡ emit fl
            (pending || falls_short prev_t row.0 p.audio)
            row.0
            p.diff
            (trim_from fl b (some row.0) false a)
  unfolding trim_from
  pair_step prev_t pending row p a e = ground (arith, e)

  behind-emit :
      (broken : Bool) (t' : ℤ) (d : F) (rest : Diffs F) (t : ℤ)
      → Breaks t rest.breaks
      → Breaks t (emit fl broken t' d rest).breaks
  behind-emit true t' d rest t (front, back, e) = (t' ∷ front, back, ap (λ r. t' ∷ r) e)
  behind-emit false t' d rest t h = h

  -- A break that is pending goes to the next pair.
  pending-breaks :
      (prev_t : Option ℤ) (dropped : List (ℤ × TrimRow F)) (row : ℤ × TrimRow F) (p : Paired F)
      (a : List (ℤ × TrimRow F))
      → AllDropped dropped
      → paired_with fl b row ≡ some p
      → Breaks row.0 (trim_from fl b prev_t true (dropped ++ row ∷ a)).breaks
  pending-breaks prev_t [] row p a h e =
      ([], (trim_from fl b (some row.0) false a).breaks, rw (pair_step prev_t true row p a e) refl)
  pending-breaks prev_t (d ∷ dropped) row p a (h, hs) e =
      let (front, back, found) = pending-breaks none dropped row p a hs e in
      (front, back, rw (drop_step prev_t true d (dropped ++ row ∷ a) h) found)

  from-Breaks :
      (prev_t : Option ℤ) (pending : Bool) (before : List (ℤ × TrimRow F)) (lost : ℤ × TrimRow F)
      (dropped : List (ℤ × TrimRow F)) (row : ℤ × TrimRow F) (p : Paired F)
      (a : List (ℤ × TrimRow F))
      → paired_with fl b lost ≡ none
      → AllDropped dropped
      → paired_with fl b row ≡ some p
      → Breaks row.0 (trim_from fl b prev_t pending (before ++ lost ∷ (dropped ++ row ∷ a))).breaks
  from-Breaks prev_t pending [] lost dropped row p a l h e =
      rw (drop_step prev_t pending lost (dropped ++ row ∷ a) l)
        (pending-breaks none dropped row p a h e)
  from-Breaks prev_t pending (x ∷ before) lost dropped row p a l h e =
      let more = before ++ lost ∷ (dropped ++ row ∷ a) in
      elim (Option-cases (paired_with fl b x)) [
        | inl none_x ↦
            rw (drop_step prev_t pending x more none_x)
              (from-Breaks none true before lost dropped row p a l h e)
        | inr (q, some_x) ↦ rw (pair_step prev_t pending x q more some_x) (
            behind-emit (pending || falls_short prev_t x.0 q.audio) x.0 q.diff
              (trim_from fl b (some x.0) false more) row.0
              (from-Breaks (some x.0) false before lost dropped row p a l h e))
      ]

  -- Wherever a window is dropped, for want of a partner or of a trim, the next one that is not
  -- dropped is a break, however many are dropped between the two: nothing is joined across.
  pub trim_diff-Breaks :
      (before : List (ℤ × TrimRow F)) (lost : ℤ × TrimRow F) (dropped : List (ℤ × TrimRow F))
      (row : ℤ × TrimRow F) (p : Paired F) (a : List (ℤ × TrimRow F))
      → paired_with fl b lost ≡ none
      → AllDropped dropped
      → paired_with fl b row ≡ some p
      → Breaks row.0 (trim_diff fl (before ++ lost ∷ (dropped ++ row ∷ a)) b).breaks
  unfolding trim_diff
  trim_diff-Breaks before lost dropped row p a l h e =
      from-Breaks none false before lost dropped row p a l h e

  -- The elements at which the flags are set.
  pub select : List Bool → List ℤ → List ℤ
  select [] ts = []
  select (flag ∷ flags) [] = []
  select (true ∷ flags) (t ∷ ts) = t ∷ select flags ts
  select (false ∷ flags) (t ∷ ts) = select flags ts

  abbrev pub times : List (ℤ × F) → List ℤ
  times pts = map (λ (pt : ℤ × F). pt.0) pts

  abbrev pub IsSelection : Diffs F → Type 0
  IsSelection d =
      (flags : List Bool) × (length flags ≡ length d.out) × (d.breaks ≡ select flags (times d.out))

  emit-IsSelection :
      (broken : Bool) (t : ℤ) (d : F) (rest : Diffs F)
      → IsSelection rest
      → IsSelection (emit fl broken t d rest)
  unfolding select
  emit-IsSelection true t d rest (flags, same, e) = (true ∷ flags, ap suc same, ap (λ r. t ∷ r) e)
  emit-IsSelection false t d rest (flags, same, e) = (false ∷ flags, ap suc same, e)

  from-IsSelection :
      (prev_t : Option ℤ) (pending : Bool) (a : List (ℤ × TrimRow F))
      → IsSelection (trim_from fl b prev_t pending a)
  from-IsSelection prev_t pending [] =
      ([], unfold trim_from in refl, unfold trim_from select in refl)
  from-IsSelection prev_t pending (x ∷ a) = elim (Option-cases (paired_with fl b x)) [
    | inl none_x ↦ rw (drop_step prev_t pending x a none_x) (from-IsSelection none true a)
    | inr (q, some_x) ↦ rw (pair_step prev_t pending x q a some_x) (
        emit-IsSelection (pending || falls_short prev_t x.0 q.audio) x.0 q.diff
          (trim_from fl b (some x.0) false a) (from-IsSelection (some x.0) false a))
  ]

  -- Every break is the time of a differential that is returned, and they are in the same order.
  pub trim_diff-IsSelection : (a : List (ℤ × TrimRow F)) → IsSelection (trim_diff fl a b)
  unfolding trim_diff
  trim_diff-IsSelection a = from-IsSelection none false a
