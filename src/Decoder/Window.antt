-- ===== src/Decoder/Window.antt =====
-- scripts/decoders/i2s_skew/pd.py: the measurement of one window of frames, `report_window`.
-- An annotation or CSV row is the data that the source formats into its text.
use mathlib.Core.List.{foldl}
use esphome_snapcast.Base.{
  ℕ, suc, ◌+◌, ◌-◌, min, Bool, true, false, ◌||◌, not, Option, none, some, List, [], ◌∷◌, ◌++◌, map,
  ltb, leb, if◌then◌else◌, length, get_or, get_elem?, take,
}
use esphome_snapcast.Base.Int.{ℤ, pos, negsuc, sub_ℕ, ◌+ℤ◌, ◌-ℤ◌, dist_ℤ}
use esphome_snapcast.Decoder.Bus.{Bus, Options, flush_bus}
use esphome_snapcast.Base.Float.{Float}
use esphome_snapcast.Decoder.Correlation.{corr_full, argmax, others, rival_of, sum_float}

pub data Reason : Type 0 where
  weak_peak close_rival : Reason

-- What `put` sends out; `start_s` and `end_s` are the samples that it is placed at.
pub data Annotation (F : Type 0) : Type 0 where
  silent : ℕ → ℕ → Annotation F
  unmatched : ℕ → ℕ → Reason → F → F → ℤ → Annotation F
  no_overlap : ℕ → ℕ → ℤ → Annotation F
  skew : ℕ → ℕ → F → ℤ → ℕ → Annotation F
  info : ℕ → ℕ → F → F → F → F → Bool → Annotation F
  csv_header : ℕ → Annotation F
  csv_row : ℕ → F → F → ℤ → F → F → F → ℕ → Annotation F

-- The float settings of `start` and `metadata`.
pub record Settings (F : Type 0) : Type 0 where
  pub min_peak : F
  pub min_margin : F
  pub samplerate : F

pub record Decoder (F : Type 0) : Type 0 where
  pub state_a : Bus
  pub state_b : Bus
  pub prev_lag : Option ℤ
  pub wrote_header : Bool
  pub out : List (Annotation F)

abbrev pub put : {F : Type 0} → Annotation F → Decoder F → Decoder F
put note d = record d { out = d.out ++ note ∷ [] }

-- `flush_window`
unfoldable pub flush_window : {F : Type 0} → Options → Decoder F → Decoder F
flush_window o d = record d {
  state_a = flush_bus o.win_frames d.state_a;
  state_b = flush_bus o.win_frames d.state_b;
}

-- `prev_lag is not None and abs(lag - prev_lag) <= lag_slack`
unfoldable pub is_continuous : ℕ → Option ℤ → ℤ → Bool
is_continuous slack none lag = false
is_continuous slack (some prev) lag = leb (dist_ℤ lag prev) slack

-- `tb[i + lag]`, if `0 <= i + lag < len(tb)`
unfoldable pub partner : List ℕ → ℕ → ℤ → Option ℕ
partner tb i (pos k) = get_elem? tb (i + k)
partner tb i (negsuc k) = if ltb k i then get_elem? tb (i - suc k) else none

-- `deltas`, from index `i` of `ta` on.
unfoldable pub deltas_from : ℕ → List ℕ → List ℕ → ℤ → List ℤ
unfolding partner
deltas_from i [] tb lag = []
deltas_from i (t ∷ ta) tb lag =
    let rest = deltas_from (suc i) ta tb lag in
    elim (partner tb i lag) [ none ↦ rest | some u ↦ (pos u -ℤ pos t) ∷ rest ]

module _ (fl : Float) where
  open fl use {F, of_int, sub, mul, div, sqrt, abs, lt, le, eq}

  -- `mean_d`, whose sum is one of integers, and `var_d ** 0.5`.
  unfoldable pub mean_of : List ℤ → F
  mean_of ds = div (of_int (foldl ◌+ℤ◌ (pos 0) ds)) (of_int (pos (length ds)))

  unfoldable pub deviation_of : List ℤ → F
  unfolding mean_of sum_float
  deviation_of ds =
      let square = λ (d : ℤ). let e = sub (of_int d) (mean_of ds) in mul e e in
      sqrt (div (sum_float fl (map square ds)) (of_int (pos (length ds))))

  -- Python's division, which raises on a divisor of 0.
  abbrev pub checked_div : F → F → Option F
  checked_div a b = if eq b (of_int (pos 0)) then none else some (div a b)

  abbrev pub in_us : Option F → Option F
  in_us none = none
  in_us (some seconds) = some (mul seconds (of_int (pos 1_000_000)))

  unfoldable pub skew_us_of : F → List ℤ → Option F
  skew_us_of rate ds = in_us (checked_div (mean_of ds) rate)

  unfoldable pub spread_us_of : F → List ℤ → Option F
  spread_us_of rate ds = in_us (checked_div (deviation_of ds) rate)

  -- The header, if it is missing, and the row.
  abbrev pub put_row : ℕ → F → ℤ → F → F → F → ℕ → F → Decoder F → Decoder F
  put_row start_s skew_us lag peak rival spread_us pairs time_s d =
      let headed =
        if d.wrote_header then d else record (put (csv_header start_s) d) { wrote_header = true } in
      put (csv_row start_s time_s skew_us lag peak rival spread_us pairs) headed

  abbrev pub put_row_at : ℕ → F → ℤ → F → F → F → ℕ → Option F → Decoder F → Option (Decoder F)
  put_row_at start_s skew_us lag peak rival spread_us pairs none d = none
  put_row_at start_s skew_us lag peak rival spread_us pairs (some time_s) d =
      some (put_row start_s skew_us lag peak rival spread_us pairs time_s d)

  -- `emit_csv`; `none` is a ZeroDivisionError.
  unfoldable pub emit_csv : F → ℕ → F → ℤ → F → F → F → ℕ → Decoder F → Option (Decoder F)
  emit_csv rate start_s skew_us lag peak rival spread_us pairs d =
      put_row_at start_s skew_us lag peak rival spread_us pairs
        (checked_div (of_int (pos start_s)) rate) d

  module _ (o : Options) (s : Settings F) where
    abbrev pub flushed : Option (Decoder F) → Option (Decoder F)
    flushed none = none
    flushed (some d) = some (flush_window o d)

    -- The part behind the two values, if neither division raises.
    abbrev pub report_values :
        ℕ → ℕ → ℤ → F → F → Bool → ℕ → Option F → Option F → Decoder F → Option (Decoder F)
    report_values start_s end_s lag best rival continuous pairs none spread_us d = none
    report_values start_s end_s lag best rival continuous pairs (some skew_us) none d = none
    report_values start_s end_s lag best rival continuous pairs (some skew_us) (some spread_us) d =
        let margin = sub best rival in
        flushed (
          emit_csv s.samplerate start_s skew_us lag best rival spread_us pairs (
            put (info start_s end_s best rival margin spread_us continuous)
              (put (skew start_s end_s skew_us lag pairs) d)))

    -- The part behind `self.prev_lag = lag`: the matched pairs, or none. An exception is `none`.
    unfoldable pub report_pairs : ℕ → ℕ → ℤ → F → F → Bool → List ℤ → Decoder F → Option (Decoder F)
    report_pairs start_s end_s lag best rival continuous [] d =
        some (flush_window o (put (no_overlap start_s end_s lag) d))
    report_pairs start_s end_s lag best rival continuous (x ∷ xs) d =
        let ds = x ∷ xs in
        report_values start_s end_s lag best rival continuous (length ds)
          (skew_us_of s.samplerate ds) (spread_us_of s.samplerate ds) d

    -- The decision on a peak of height `best` at `lag`.
    unfoldable pub report_decision :
        ℕ → ℕ → F → F → ℤ → List ℕ → List ℕ → Decoder F → Option (Decoder F)
    unfolding is_continuous flush_window
    report_decision start_s end_s best rival lag ta tb d =
        let margin = sub best rival in
        let continuous = is_continuous o.lag_slack d.prev_lag lag in
        let weak = lt best s.min_peak in
        if weak || not (le s.min_margin margin || continuous)
        then some (
            flush_window o
              (record (put
                (unmatched start_s end_s (if weak then weak_peak else close_rival) best rival lag)
                d) { prev_lag = none }))
        else report_pairs start_s end_s lag best rival continuous (deltas_from 0 ta tb lag)
            (record d { prev_lag = some lag })

    -- The part behind the correlation: the peak, the runner-up outside its neighbours, the lag.
    unfoldable pub report_peak :
        ℕ → ℕ → List F → ℕ → List ℕ → List ℕ → Decoder F → Option (Decoder F)
    report_peak start_s end_s corr zero_idx ta tb d =
        let peak = argmax fl corr in
        let best = abs (get_or corr peak (of_int (pos 0))) in
        let lag = sub_ℕ zero_idx peak in
        let lo = peak - 2 in
        let hi = min (length corr) (peak + 3) in
        let rival = rival_of fl (others fl lo hi 0 corr) in
        report_decision start_s end_s best rival lag ta tb d

    -- The part behind `if corr is None`, and the silent window.
    unfoldable pub report_corr :
        ℕ → ℕ → Option (List F) × ℕ → List ℕ → List ℕ → Decoder F → Option (Decoder F)
    unfolding flush_window
    report_corr start_s end_s (none, _) ta tb d =
        some (flush_window o (put (silent start_s end_s) d))
    report_corr start_s end_s (some corr, zero_idx) ta tb d =
        report_peak start_s end_s corr zero_idx ta tb d

    -- The window's start and end; an empty window is the IndexError of `ta[0]`.
    unfoldable pub report_from : List ℤ → List ℤ → List ℕ → List ℕ → Decoder F → Option (Decoder F)
    report_from a b [] tb d = none
    report_from a b (t ∷ ts) tb d =
        report_corr t (get_or ts (length ts - 1) t) (corr_full fl o.max_lag a b) (t ∷ ts) tb d

    -- `report_window`
    unfoldable pub report_window : Decoder F → Option (Decoder F)
    report_window d =
        report_from (take o.win_frames d.state_a.pcm) (take o.win_frames d.state_b.pcm)
          (take o.win_frames d.state_a.ws_times) (take o.win_frames d.state_b.ws_times) d
