-- ===== src/DinSkew/Settled.antt =====
-- scripts/din-skew.py: the line that `xcorr_blocks` reads its lag from.
use esphome_snapcast.Base.{
  ℕ, zero, suc, ◌≤◌, ◌<◌, ◌≡◌, refl, ◌⊎◌, inl, inr, Bool, true, false, none, some, List, [], ◌∷◌,
  arith, ltb, leb, length, map, Bool-cases,
}
use esphome_snapcast.Base.Int.{pos}
use esphome_snapcast.Base.Float.{Float}
use esphome_snapcast.DinSkew.Blocks.{
  Numpy, Block, Lag, select, sum, array_equal, lags, times, sizes, on_line, line_of, refine, fitted,
}

module _ (fl : Float) (np : Numpy fl) where
  open fl use {F, add, sub, mul, div, abs, le, of_int}

  -- The mask says of each block whether `test` holds of it.
  abbrev pub Marks : (Block fl → Bool) → List (Block fl) → List Bool → Type 0
  Marks test [] [] = Unit
  Marks test (b ∷ bs) (m ∷ mask) = (m ≡ test b) × Marks test bs mask
  Marks test _ _ = ⊥

  -- The blocks on a line.
  abbrev pub fits : F × F → Block fl → Bool
  fits (slope, at_zero) b = le (abs (sub b.lag (add (mul slope b.time) at_zero))) np.cluster_tol

  -- The line of the marked blocks: numpy's fit of six or more that spread in time, or else level at
  -- their median.
  abbrev pub IsFit : List (Block fl) → List Bool → F × F → Type 0
  IsFit bs mask line =
      ((6 ≤ sum mask)
        × (np.spreads (times fl np (select mask bs)) ≡ true)
        × (line ≡ np.fit (map (λ (b : Block fl). (b.time, b.lag)) (select mask bs))))
      ⊎ (((sum mask < 6) ⊎ (np.spreads (times fl np (select mask bs)) ≡ false))
          × (line ≡ (of_int (pos 0), np.median (lags fl np (select mask bs)))))

  -- The masks that rounds get to: the first, and the blocks on the line of one, at least four.
  pub data Reached (bs : List (Block fl)) (start : List Bool) : List Bool → Type 0 where
    first : Reached bs start start
    round :
        {next : List Bool} (mask : List Bool) (line : F × F)
        → Reached bs start mask
        → IsFit bs mask line
        → Marks (fits line) bs next
        → 4 ≤ sum next
        → Reached bs start next

  -- The last line is that of a mask that was reached. The inliers are the blocks on it, or that mask if
  -- there are fewer than four on it.
  pub record IsSettled (bs : List (Block fl)) (start : List Bool) (line : F × F)
      (inliers : List Bool) : Type 0 where
    pub before : List Bool
    pub on : List Bool
    pub reached : Reached bs start before
    pub fit : IsFit bs before line
    pub marks : Marks (fits line) bs on
    pub inliers_are : ((4 ≤ sum on) × (inliers ≡ on)) ⊎ ((sum on < 4) × (inliers ≡ before))

  -- A lag, that of a line in the middle of the blocks; with the strength and the share of the inliers,
  -- of which there are at least four, and the slope as a rate if they are six or more.
  pub record IsAgreed (bs : List (Block fl)) (start : List Bool) (r : Lag fl) : Type 0 where
    pub line : F × F
    pub inliers : List Bool
    pub settled : IsSettled bs start line inliers
    pub four : 4 ≤ sum inliers
    pub lag : r.lag ≡ some (add (mul line.0 (np.mean (times fl np bs))) line.1)
    pub strength : r.coef ≡ np.mean (sizes fl np (select inliers bs))
    pub share : r.agree ≡ div (of_int (pos (sum inliers))) (of_int (pos (length bs)))
    pub rate :
        ((6 ≤ sum inliers) × (r.ppm ≡ some (mul line.0 np.million)))
        ⊎ ((sum inliers < 6) × (r.ppm ≡ none))

  pub map-Marks : (test : Block fl → Bool) (bs : List (Block fl)) → Marks test bs (map test bs)
  map-Marks test [] = tt
  map-Marks test (b ∷ bs) = (refl, map-Marks test bs)

  line_of-IsFit : (bs : List (Block fl)) (mask : List Bool) → IsFit bs mask (line_of fl np bs mask)
  unfolding line_of
  line_of-IsFit bs mask = elim (Bool-cases (leb 6 (sum mask))) [
    | inl six ↦ elim (Bool-cases (np.spreads (times fl np (select mask bs)))) [
      | inl wide ↦ rw (six, wide) (inl (ground (arith, six), refl, refl))
      | inr thin ↦ rw (six, thin) (inr (inr refl, refl))
    ]
    | inr few ↦ rw few (inr (inl (ground (arith, few)), refl))
  ]

  -- What the loop leaves, after any number of rounds but none.
  abbrev Settles : List (Block fl) → List Bool → (F × F) × List Bool → Type 0
  Settles bs start last = IsSettled bs start last.0 last.1 × (4 ≤ sum last.1)

  -- One round, if what the others make of its inliers is settled.
  refine-round :
      (rounds : ℕ) (bs : List (Block fl)) (start mask : List Bool) (line : F × F)
      → Reached bs start mask
      → 4 ≤ sum mask
      → ((line' : F × F) (next : List Bool)
          → Reached bs start next
          → 4 ≤ sum next
          → IsSettled bs start line' next
          → Settles bs start (refine fl np rounds bs next line'))
      → Settles bs start (refine fl np (suc rounds) bs mask line)
  unfolding refine on_line
  refine-round rounds bs start mask line reached four later =
      let line' = line_of fl np bs mask in
      let next = map (fits line') bs in
      let fit = line_of-IsFit bs mask in
      let marks = map-Marks (fits line') bs in
      elim (Bool-cases (ltb (sum next) 4)) [
        | inl few ↦ rw few (
          record {
            before = mask;
            on = next;
            reached = reached;
            fit = fit;
            marks = marks;
            inliers_are = inr (ground (arith, few), refl);
          },
          four,
        )
        | inr many ↦
            let enough : 4 ≤ sum next = ground (arith, many) in
            let stays : IsSettled bs start line' next = record {
              before = mask;
              on = next;
              reached = reached;
              fit = fit;
              marks = marks;
              inliers_are = inl (enough, refl);
            } in
            elim (Bool-cases (array_equal next mask)) [
              | inl same ↦ rw (many, same) (stays, enough)
              | inr other ↦
                  rw (many, other)
                    (later line' next (round mask line' reached fit marks enough) enough stays)
            ]
      ]

  refine-Settles :
      (rounds : ℕ) (bs : List (Block fl)) (start mask : List Bool) (line : F × F)
      → Reached bs start mask
      → 4 ≤ sum mask
      → IsSettled bs start line mask
      → Settles bs start (refine fl np rounds bs mask line)
  refine-Settles zero bs start mask line reached four stays = unfold refine in (stays, four)
  refine-Settles (suc rounds) bs start mask line reached four stays =
      refine-round rounds bs start mask line reached four (λ line' next reached' four' stays'.
        refine-Settles rounds bs start next line' reached' four' stays')

  pub fitted-IsAgreed :
      (bs : List (Block fl)) (mask : List Bool)
      → 4 ≤ sum mask
      → IsAgreed bs mask (fitted fl np bs mask)
  unfolding fitted
  fitted-IsAgreed bs mask h =
      let start : F × F = (of_int (pos 0), np.median (lags fl np (select mask bs))) in
      let last = refine fl np 4 bs mask start in
      let (settled, four) =
        refine-round 3 bs mask mask start first h
          (λ line next reached four stays. refine-Settles 3 bs mask next line reached four stays) in
      record {
        line = last.0;
        inliers = last.1;
        settled = settled;
        four = four;
        lag = refl;
        strength = refl;
        share = refl;
        rate = elim (Bool-cases (leb 6 (sum last.1))) [
          | inl six ↦ rw six (inl (ground (arith, six), refl))
          | inr few ↦ rw few (inr (ground (arith, few), refl))
        ];
      }
