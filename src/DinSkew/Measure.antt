-- ===== src/DinSkew/Measure.antt =====
-- scripts/din-skew.py: `measure` and the loop of `main`. The correlation, the edges and the clock are
-- parameters of the run; `none` stands for NaN.
use esphome_snapcast.Base.{
  ℕ, ◌+◌, Bool, true, false, ◌&&◌, ◌||◌, Option, none, some, List, [], ◌∷◌, ◌++◌, ltb, ◌==◌,
  if◌then◌else◌,
}
use esphome_snapcast.Base.Float.{Float}
use esphome_snapcast.DinSkew.Blocks.{Lag}

pub data Mode : Type 0 where
  xcorr bitphase : Mode

pub data Reason : Type 0 where
  no_lock at_search_limit weak blocks_disagree : Reason

-- The gates of `measure`; `min_quality` is MIN_COEF, or 0.30 for the bit phase.
pub record Gates (fl : Float) : Type 0 where
  pub mode : Mode
  pub limit : fl.F
  pub min_quality : fl.F
  pub min_agreement : fl.F
  pub ns_per_sample : fl.F

pub record Row (fl : Float) : Type 0 where
  pub dt_ns : Option fl.F
  pub lag_samples : Option fl.F
  pub coef : fl.F
  pub agree : fl.F
  pub ppm : Option fl.F
  pub bit_ns : Option fl.F
  pub reason : Option Reason

module _ (fl : Float) where
  open fl use {F, mul, abs, lt}

  abbrev pub is_xcorr : Mode → Bool
  is_xcorr xcorr = true
  is_xcorr bitphase = false

  -- The chain of `if not np.isfinite(lag)`
  unfoldable pub reason_of : Gates fl → Lag fl → Option Reason
  reason_of g l = elim l.lag [
    | none ↦ some no_lock
    | some lag ↦
        if is_xcorr g.mode && lt g.limit (abs lag)
        then some at_search_limit
        else if lt l.coef g.min_quality
        then some weak
        else if is_xcorr g.mode && lt l.agree g.min_agreement
        then some blocks_disagree
        else none
  ]

  abbrev pub scaled : F → Option F → Option F
  scaled ns none = none
  scaled ns (some x) = some (mul x ns)

  abbrev pub unless_reason : Option Reason → Option F → Option F
  unless_reason none dt = dt
  unless_reason (some r) dt = none

  -- `measure`, of the lag that the mode gives and the bit period
  unfoldable pub measure : Gates fl → Lag fl → Option F → Row fl
  unfolding reason_of
  measure g l period =
      let reason = reason_of g l in
      record {
        dt_ns = unless_reason reason (scaled g.ns_per_sample l.lag);
        lag_samples = l.lag;
        coef = l.coef;
        agree = l.agree;
        ppm = l.ppm;
        bit_ns = scaled g.ns_per_sample period;
        reason = reason;
      }

  -- What `main` keeps from one capture to the next.
  pub record Session : Type 0 where
    pub ts : List F
    pub dts : List (Option F)
    pub ppms : List F
    pub prefer : Option F
    pub checked : Bool
    pub n : ℕ

  abbrev pub append_some : List F → Option F → List F
  append_some xs none = xs
  append_some xs (some x) = xs ++ x ∷ []

  abbrev pub is_finite : Option F → Bool
  is_finite none = false
  is_finite (some x) = true

  -- A round with a row
  unfoldable pub on_row : Session → F → Row fl → Session
  on_row s elapsed row = record {
    ts = s.ts ++ elapsed ∷ [];
    dts = s.dts ++ row.dt_ns ∷ [];
    ppms = append_some s.ppms row.ppm;
    prefer = if is_finite row.dt_ns then row.lag_samples else s.prefer;
    checked = s.checked || is_finite row.bit_ns;
    n = s.n + 1;
  }

  -- A capture: the correlation of it depends on the lag before; it may fail.
  pub record Capture : Type 0 where
    pub elapsed : F
    pub correlate : Option (Option F → Lag fl)
    pub period : Option F

  -- One round of the loop
  unfoldable pub session_round : Gates fl → Session → Capture → Session
  unfolding on_row measure
  session_round g s c = elim c.correlate [
    | none ↦ record s { n = s.n + 1 }
    | some correlate ↦ on_row s c.elapsed (measure g (correlate s.prefer) c.period)
  ]

  -- `while args.count == 0 or n < args.count`, over the captures that come
  unfoldable pub session_rounds : Gates fl → ℕ → Session → List Capture → Session
  unfolding session_round
  session_rounds g count s [] = s
  session_rounds g count s (c ∷ cs) =
      let rest = session_rounds g count (session_round g s c) cs in
      if count == 0 || ltb s.n count then rest else s
