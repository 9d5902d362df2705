-- ===== src/Analyser/Series/Segments.antt =====
-- scripts/i2s-skew.py: what `split_gaps` makes of a series.
use mathlib.Core.List.{append_assoc, append-nil}
use esphome_snapcast.Base.{
  ◌≤◌, length, ◌≡◌, ◌≢◌, refl, ◌∙◌, ap, sym, inl, inr, true, false, List, [], ◌∷◌, ◌++◌, arith,
  concat, Bool-cases,
}
use esphome_snapcast.Base.Int.{ℤ, pos, ◌-ℤ◌, ◌≤ℤ◌, ltb_ℤ}
use esphome_snapcast.Analyser.Series.Gaps.{gaps_from, gap_limit, split_from, nonempty, split_gaps}

module _ {V : Type 0} where
  -- No two neighbours of a segment are further apart than the limit.
  abbrev pub IsTight : ℤ → List (ℤ × V) → Type 0
  IsTight limit [] = Unit
  IsTight limit (p ∷ []) = Unit
  IsTight limit (p ∷ q ∷ pts) = (q.0 -ℤ p.0 ≤ℤ limit) × IsTight limit (q ∷ pts)

  abbrev pub AllTight : ℤ → List (List (ℤ × V)) → Type 0
  AllTight limit [] = Unit
  AllTight limit (seg ∷ segs) = (seg ≢ []) × IsTight limit seg × AllTight limit segs

  -- A segment that ends in `p`, with what is in front of it.
  IsTight-snoc :
      (limit : ℤ) (front : List (ℤ × V)) (p q : ℤ × V)
      → IsTight limit (front ++ p ∷ [])
      → q.0 -ℤ p.0 ≤ℤ limit
      → IsTight limit ((front ++ p ∷ []) ++ q ∷ [])
  IsTight-snoc limit [] p q h k = (k, tt)
  IsTight-snoc limit (a ∷ []) p q (h, hs) k = (h, (k, tt))
  IsTight-snoc limit (a ∷ b ∷ front) p q (h, hs) k = (h, IsTight-snoc limit (b ∷ front) p q hs k)

  snoc-ne_nil : (front : List (ℤ × V)) (p : ℤ × V) → front ++ p ∷ [] ≢ []
  snoc-ne_nil [] p e = cc e
  snoc-ne_nil (a ∷ front) p e = cc e

  split_from-cut :
      (limit : ℤ) (prev next : ℤ × V) (cur pts : List (ℤ × V))
      → ltb_ℤ limit (next.0 -ℤ prev.0) ≡ true
      → split_from limit prev cur (next ∷ pts) ≡ cur ∷ split_from limit next (next ∷ []) pts
  unfolding split_from
  split_from-cut limit prev next cur pts h = rw h refl

  split_from-join :
      (limit : ℤ) (prev next : ℤ × V) (cur pts : List (ℤ × V))
      → ltb_ℤ limit (next.0 -ℤ prev.0) ≡ false
      → split_from limit prev cur (next ∷ pts) ≡ split_from limit next (cur ++ next ∷ []) pts
  unfolding split_from
  split_from-join limit prev next cur pts h = rw h refl

  -- What is left of the points behind a segment in hand, and how tight it is.
  record IsSplit (limit : ℤ) (pts : List (ℤ × V)) (segs : List (List (ℤ × V))) : Type 0 where
    joined : concat segs ≡ pts
    tight : AllTight limit segs

  split_from-IsSplit :
      (limit : ℤ) (front : List (ℤ × V)) (prev : ℤ × V) (pts : List (ℤ × V))
      → IsTight limit (front ++ prev ∷ [])
      → IsSplit limit ((front ++ prev ∷ []) ++ pts) (split_from limit prev (front ++ prev ∷ []) pts)
  split_from-IsSplit limit front prev [] h = record {
    joined =
        unfold split_from in
        append-nil (front ++ prev ∷ []) ∙ sym (append-nil (front ++ prev ∷ []));
    tight = unfold split_from in (snoc-ne_nil front prev, h, tt);
  }
  split_from-IsSplit limit front prev (next ∷ pts) h =
      elim (Bool-cases (ltb_ℤ limit (next.0 -ℤ prev.0))) [
        | inl far ↦
            let rest = split_from-IsSplit limit [] next pts tt in
            rw (split_from-cut limit prev next (front ++ prev ∷ []) pts far) (record {
              joined = ap (λ r. (front ++ prev ∷ []) ++ r) rest.joined;
              tight = (snoc-ne_nil front prev, h, rest.tight);
            })
        | inr near ↦
            let close : next.0 -ℤ prev.0 ≤ℤ limit = ground (arith, near) in
            let rest =
              split_from-IsSplit limit (front ++ prev ∷ []) next pts
                (IsTight-snoc limit front prev next h close) in
            rw (split_from-join limit prev next (front ++ prev ∷ []) pts near) (record {
              joined = rest.joined ∙ append_assoc (front ++ prev ∷ []) (next ∷ []) pts;
              tight = rest.tight;
            })
      ]

  nonempty-AllTight :
      (limit : ℤ) (segs : List (List (ℤ × V))) → AllTight limit segs → nonempty segs ≡ segs
  unfolding nonempty
  nonempty-AllTight limit [] h = refl
  nonempty-AllTight limit ([] ∷ segs) (ne, _, hs) = absurd (ne refl)
  nonempty-AllTight limit ((p ∷ ps) ∷ segs) (ne, _, hs) =
      ap (λ r. (p ∷ ps) ∷ r) (nonempty-AllTight limit segs hs)

  -- The limit that a series of at least three points is cut at.
  pub limit_of : List (ℤ × V) → ℤ
  limit_of [] = pos 0
  limit_of (p ∷ pts) = gap_limit (gaps_from p.0 pts)

  -- The segments of a series of at least three points are its points, in order, none of them lost; no
  -- segment is empty, and within one no gap is wider than ten median gaps or half a second,
  -- whichever is more.
  pub split_gaps-AllTight :
      (pts : List (ℤ × V))
      → 3 ≤ length pts
      → (concat (split_gaps pts) ≡ pts) × AllTight (limit_of pts) (split_gaps pts)
  unfolding split_gaps limit_of
  split_gaps-AllTight [] h = absurd (omega arith)
  split_gaps-AllTight (p ∷ []) h = absurd (omega arith)
  split_gaps-AllTight (p ∷ q ∷ []) h = absurd (omega arith)
  split_gaps-AllTight (p ∷ q ∷ r ∷ pts) h =
      let more = q ∷ r ∷ pts in
      let limit = gap_limit (gaps_from p.0 more) in
      let split = split_from-IsSplit limit [] p more tt in
      rw (nonempty-AllTight limit (split_from limit p (p ∷ []) more) split.tight)
        (split.joined, split.tight)
