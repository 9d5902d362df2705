-- ===== src/DinSkew/Sessions.antt =====
-- scripts/din-skew.py: what the loop of `main` has kept behind any captures.
use mathlib.Core.List.{append_assoc, append-nil}
use esphome_snapcast.Base.{
  ℕ, suc, ◌+◌, ◌<◌, ◌≡◌, refl, ◌∙◌, ap, sym, Bool, true, false, ◌||◌, Option, none, some, List, [],
  ◌∷◌, ◌++◌, arith, ltb, ◌==◌, length, replicate,
}
use esphome_snapcast.Base.Int.{pos}
use esphome_snapcast.Base.Float.{Float}
use esphome_snapcast.DinSkew.Blocks.{Numpy, Block, Lag, xcorr_blocks}
use esphome_snapcast.DinSkew.Measure.{
  Gates, Session, Capture, reason_of, measure, on_row, session_round, session_rounds,
}

module _ (fl : Float) where
  abbrev pub succeeded : List (Capture fl) → ℕ
  succeeded [] = 0
  succeeded (c ∷ cs) = elim c.correlate [ none ↦ succeeded cs | some f ↦ suc (succeeded cs) ]

  abbrev pub is_going : ℕ → Session fl → Bool
  is_going count s = (count == 0) || ltb s.n count

  session_rounds-go :
      (g : Gates fl) (count : ℕ) (s : Session fl) (c : Capture fl) (cs : List (Capture fl))
      → is_going count s ≡ true
      → session_rounds fl g count s (c ∷ cs) ≡ session_rounds fl g count (session_round fl g s c) cs
  unfolding session_rounds
  session_rounds-go g count s c cs h = rw h refl

  session_rounds-stop :
      (g : Gates fl) (count : ℕ) (s : Session fl) (c : Capture fl) (cs : List (Capture fl))
      → is_going count s ≡ false
      → session_rounds fl g count s (c ∷ cs) ≡ s
  unfolding session_rounds
  session_rounds-stop g count s c cs h = rw h refl

  session_round-n :
      (g : Gates fl) (s : Session fl) (c : Capture fl) → (session_round fl g s c).n ≡ s.n + 1
  unfolding session_round on_row
  session_round-n g s c = ground arith

  -- A capture with too few blocks for a lag: `xcorr_blocks` of less than four.
  pub record IsTooShort (np : Numpy fl) (nb : ℕ) (c : Capture fl) : Type 0 where
    pub correlate : Option fl.F → Lag fl
    pub runs : c.correlate ≡ some correlate
    pub blocks :
        (prefer : Option fl.F)
        → (bs : List (Block fl)) × (length bs ≡ nb)
          × (correlate prefer ≡ xcorr_blocks fl np prefer bs)

  abbrev pub AllTooShort : Numpy fl → ℕ → List (Capture fl) → Type 0
  AllTooShort np nb [] = Unit
  AllTooShort np nb (c ∷ cs) = IsTooShort np nb c × AllTooShort np nb cs

  short-lag :
      (np : Numpy fl) (prefer : Option fl.F) (bs : List (Block fl))
      → length bs < 4
      → (l : Lag fl) × (xcorr_blocks fl np prefer bs ≡ l)
        × (l.lag ≡ none)
        × (l.ppm ≡ some (fl.of_int (pos (length bs))))
  unfolding xcorr_blocks
  short-lag np prefer bs h =
      let few : ltb (length bs) 4 ≡ true = ground arith in
      (xcorr_blocks fl np prefer bs, refl, rw few refl, rw few refl)

  -- What a row without a lag appends.
  on_lost :
      (g : Gates fl) (s : Session fl) (elapsed : fl.F) (l : Lag fl) (period : Option fl.F)
      (rate : fl.F)
      → l.lag ≡ none
      → l.ppm ≡ some rate
      → ((on_row fl s elapsed (measure fl g l period)).dts ≡ s.dts ++ none ∷ [])
        × ((on_row fl s elapsed (measure fl g l period)).ppms ≡ s.ppms ++ rate ∷ [])
  unfolding on_row measure reason_of
  on_lost g s elapsed l period rate e r = (rw e refl, rw r refl)

  round-short :
      (np : Numpy fl) (nb : ℕ) (g : Gates fl) (s : Session fl) (c : Capture fl)
      → nb < 4
      → IsTooShort np nb c
      → ((session_round fl g s c).dts ≡ s.dts ++ none ∷ [])
        × ((session_round fl g s c).ppms ≡ s.ppms ++ fl.of_int (pos nb) ∷ [])
  unfolding session_round
  round-short np nb g s c few short =
      let (bs, len, run) = short.blocks s.prefer in
      let (l, e, lost, rate) = short-lag np s.prefer bs (omega (arith, len)) in
      let rate' : l.ppm ≡ some (fl.of_int (pos nb)) =
        rate ∙ ap (λ n. some (fl.of_int (pos n))) len in
      rw (short.runs)
        (rw (run ∙ e) (on_lost g s c.elapsed l c.period (fl.of_int (pos nb)) lost rate'))

  replicate-shift {ℓ} :
      {A : Type ℓ} (xs : List A) (a : A) (n : ℕ)
      → (xs ++ a ∷ []) ++ replicate n a ≡ xs ++ replicate (suc n) a
  replicate-shift xs a n = append_assoc xs (a ∷ []) (replicate n a)

  -- With captures too short for four blocks, in a run that goes on for any number of them, no capture
  -- gives a skew, and yet each adds a rate to those that are averaged at the end: the number of its
  -- blocks, as parts per million.
  pub session_rounds-short :
      (np : Numpy fl) (nb : ℕ) (g : Gates fl) (s : Session fl) (cs : List (Capture fl))
      → nb < 4
      → AllTooShort np nb cs
      → let behind = session_rounds fl g 0 s cs in
        (behind.dts ≡ s.dts ++ replicate (length cs) none)
        × (behind.ppms ≡ s.ppms ++ replicate (length cs) (fl.of_int (pos nb)))
  session_rounds-short np nb g s [] few short =
      unfold session_rounds in (sym (append-nil s.dts), sym (append-nil s.ppms))
  session_rounds-short np nb g s (c ∷ cs) few (here, short) =
      let (dts, ppms) = round-short np nb g s c few here in
      let (dts', ppms') = session_rounds-short np nb g (session_round fl g s c) cs few short in
      rw (session_rounds-go g 0 s c cs refl) (
        dts' ∙ rw dts (replicate-shift s.dts none (length cs)),
        ppms' ∙ rw ppms (replicate-shift s.ppms (fl.of_int (pos nb)) (length cs)),
      )
