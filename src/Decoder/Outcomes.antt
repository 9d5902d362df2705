-- ===== src/Decoder/Outcomes.antt =====
-- scripts/decoders/i2s_skew/pd.py: what `report_window` does with a full window, on every branch.
use esphome_snapcast.Base.{
  ℕ, ◌+◌, ◌≤◌, ◌<◌, ◌≡◌, ◌∙◌, sym, ap, refl, Bool, true, false, ◌||◌, Option, none, some, List, [],
  ◌∷◌, ◌++◌, arith, length, length-take, take, ◌⊎◌, inl, inr, Bool-cases,
}
use esphome_snapcast.Base.Int.{ℤ, pos, abs_ℤ}
use mathlib.Core.List.{append-nil}
use esphome_snapcast.Decoder.Bus.{Options, flush_bus}
use esphome_snapcast.Decoder.Slots.{IsValid}
use esphome_snapcast.Base.Float.{Float}
use esphome_snapcast.Decoder.Correlation.{corr_full, argmax}
use esphome_snapcast.Decoder.Window.{
  Reason, weak_peak, close_rival, silent, unmatched, skew, info, csv_row, Settings, Decoder, put,
  flush_window, is_continuous, deltas_from, mean_of, deviation_of, put_row, skew_us_of,
  spread_us_of, emit_csv, report_pairs, report_decision, report_peak, report_corr, report_from,
  report_window,
}
use esphome_snapcast.Decoder.Verdicts.{header_if_new, Outcome, IsFlushed}
use esphome_snapcast.Decoder.Pairs.{argmax-lt, length-corr_full, abs_ℤ-sub_ℕ, length-deltas_from}

module _ (fl : Float) where
  open fl use {F, of_int, sub, mul, div, lt, le, eq}

  put_row-cases :
      (start_s : ℕ) (skew_us : F) (lag : ℤ) (best rival spread_us : F) (pairs : ℕ) (time_s : F)
      (d : Decoder F)
      → let e = put_row fl start_s skew_us lag best rival spread_us pairs time_s d in
        (e.out
          ≡ (d.out ++ header_if_new d.wrote_header start_s)
            ++ csv_row start_s time_s skew_us lag best rival spread_us pairs ∷ [])
        × (e.prev_lag ≡ d.prev_lag)
        × (e.wrote_header ≡ true)
        × (e.state_a ≡ d.state_a)
        × (e.state_b ≡ d.state_b)
  put_row-cases start_s skew_us lag best rival spread_us pairs time_s d =
      elim (Bool-cases d.wrote_header) [
        | inl old ↦ simp (old, append-nil) (refl, refl, refl, refl, refl)
        | inr new ↦ simp new (refl, refl, refl, refl, refl)
      ]

  module _ (o : Options) (s : Settings F) where
    -- The window is reported, in one of the three ways, and taken off.
    abbrev Ends : Decoder F → Option (Decoder F) → Type 0
    Ends d r = (d' : Decoder F) × (r ≡ some d') × Outcome fl o s d d' × IsFlushed fl o s d d'

    report_pairs-some :
        (start_s end_s : ℕ) (lag : ℤ) (best rival : F) (c : Bool) (x : ℤ) (xs : List ℤ)
        (d : Decoder F)
        → eq s.samplerate (of_int (pos 0)) ≡ false
        → let skew_us = mul (div (mean_of fl (x ∷ xs)) s.samplerate) (of_int (pos 1_000_000)) in
          let spread_us =
            mul (div (deviation_of fl (x ∷ xs)) s.samplerate) (of_int (pos 1_000_000)) in
          report_pairs fl o s start_s end_s lag best rival c (x ∷ xs) d
          ≡ some (
              flush_window o (
                put_row fl start_s skew_us lag best rival spread_us
                  (length (x ∷ xs))
                  (div (of_int (pos start_s)) s.samplerate)
                  (put
                    (info start_s end_s best rival (sub best rival) spread_us c)
                    (put (skew start_s end_s skew_us lag (length (x ∷ xs))) d))))
    unfolding report_pairs skew_us_of spread_us_of emit_csv
    report_pairs-some start_s end_s lag best rival c x xs d rate = rw (rate, rate) refl

    report_pairs-Ends :
        (start_s end_s : ℕ) (lag : ℤ) (best rival : F) (ds : List ℤ) (d : Decoder F)
        → eq s.samplerate (of_int (pos 0)) ≡ false
        → lt best s.min_peak ≡ false
        → le s.min_margin (sub best rival) || is_continuous o.lag_slack d.prev_lag lag ≡ true
        → abs_ℤ lag ≤ o.max_lag
        → abs_ℤ lag < o.win_frames
        → length ds + abs_ℤ lag ≡ o.win_frames
        → Ends d (
            report_pairs fl o s start_s end_s lag best rival
              (is_continuous o.lag_slack d.prev_lag lag)
              ds
              (record d { prev_lag = some lag }))
    report_pairs-Ends start_s end_s lag best rival [] d rate h k m n e = absurd (omega arith)
    report_pairs-Ends start_s end_s lag best rival (x ∷ xs) d rate h k m n e =
        let skew_us = mul (div (mean_of fl (x ∷ xs)) s.samplerate) (of_int (pos 1_000_000)) in
        let spread_us =
          mul (div (deviation_of fl (x ∷ xs)) s.samplerate) (of_int (pos 1_000_000)) in
        let c = is_continuous o.lag_slack d.prev_lag lag in
        let time_s = div (of_int (pos start_s)) s.samplerate in
        let before = put (info start_s end_s best rival (sub best rival) spread_us c) (
          put (skew start_s end_s skew_us lag (length (x ∷ xs)))
            (record d { prev_lag = some lag })) in
        let (out_eq, prev_lag_eq, header_eq, same_a, same_b) =
          put_row-cases start_s skew_us lag best rival spread_us (length (x ∷ xs)) time_s before in
        (
          flush_window o
              (put_row fl start_s skew_us lag best rival spread_us (length (x ∷ xs)) time_s before),
          report_pairs-some start_s end_s lag best rival c x xs (record d { prev_lag = some lag })
              rate,
          unfold flush_window in
              inr (
                inr (record {
                  start_s = start_s;
                  end_s = end_s;
                  best = best;
                  rival = rival;
                  lag = lag;
                  pairs = length (x ∷ xs);
                  skew_us = skew_us;
                  spread_us = spread_us;
                  time_s = time_s;
                  strong = h;
                  confirmed = k;
                  lag_bounded = m;
                  lag_inside = n;
                  pairs_eq = e;
                  out_eq = out_eq;
                  prev_lag_eq = prev_lag_eq;
                  wrote_header_eq = header_eq;
                })),
          unfold flush_window in
              record {
                side_a_eq = ap (flush_bus o.win_frames) same_a;
                side_b_eq = ap (flush_bus o.win_frames) same_b;
              },
        )

    rejected-Ends :
        (start_s end_s : ℕ) (why : Reason) (best rival : F) (lag : ℤ) (d : Decoder F)
        → (why ≡ weak_peak) × (lt best s.min_peak ≡ true)
          ⊎ (why ≡ close_rival)
            × (lt best s.min_peak ≡ false)
            × (le s.min_margin (sub best rival) || is_continuous o.lag_slack d.prev_lag lag ≡ false)
        → Ends d (
            some (
              flush_window o
                (record (put (unmatched start_s end_s why best rival lag) d) { prev_lag = none })))
    rejected-Ends start_s end_s why best rival lag d tests = (
      flush_window o
          (record (put (unmatched start_s end_s why best rival lag) d) { prev_lag = none }),
      refl,
      unfold flush_window in
          inr (
            inl (record {
              start_s = start_s;
              end_s = end_s;
              why = why;
              best = best;
              rival = rival;
              lag = lag;
              tests = tests;
              out_eq = refl;
              prev_lag_eq = refl;
              wrote_header_eq = refl;
            })),
      unfold flush_window in record { side_a_eq = refl; side_b_eq = refl },
    )

    report_decision-Ends :
        (start_s end_s : ℕ) (best rival : F) (lag : ℤ) (ta tb : List ℕ) (d : Decoder F)
        → eq s.samplerate (of_int (pos 0)) ≡ false
        → length ta ≡ o.win_frames
        → length tb ≡ o.win_frames
        → abs_ℤ lag ≤ o.max_lag
        → abs_ℤ lag < o.win_frames
        → Ends d (report_decision fl o s start_s end_s best rival lag ta tb d)
    unfolding report_decision
    report_decision-Ends start_s end_s best rival lag ta tb d rate ea eb m n =
        let confirmed =
          le s.min_margin (sub best rival) || is_continuous o.lag_slack d.prev_lag lag in
        elim (Bool-cases (lt best s.min_peak)) [
          | inl weak ↦
              simp weak (rejected-Ends start_s end_s weak_peak best rival lag d (inl (refl, weak)))
          | inr strong ↦ elim (Bool-cases confirmed) [
            | inl clear ↦
                simp (strong, clear)
                  (report_pairs-Ends start_s end_s lag best rival (deltas_from 0 ta tb lag) d rate
                    strong clear m n (omega (arith, length-deltas_from ta tb lag (eb ∙ sym ea))))
            | inr unclear ↦
                simp (strong, unclear)
                  (rejected-Ends start_s end_s close_rival best rival lag d
                    (inr (refl, strong, unclear)))
          ]
        ]

    report_corr-Ends :
        (a b : List ℤ) (start_s end_s : ℕ) (r : Option (List F) × ℕ) (ta tb : List ℕ)
        (d : Decoder F)
        → eq s.samplerate (of_int (pos 0)) ≡ false
        → corr_full fl o.max_lag a b ≡ r
        → 0 < o.win_frames
        → length a ≡ o.win_frames
        → length ta ≡ o.win_frames
        → length tb ≡ o.win_frames
        → Ends d (report_corr fl o s start_s end_s r ta tb d)
    unfolding report_corr
    report_corr-Ends a b start_s end_s (none, _) ta tb d rate h w ea e e' = (
      flush_window o (put (silent start_s end_s) d),
      refl,
      unfold flush_window in
          inl (record {
            start_s = start_s;
            end_s = end_s;
            out_eq = refl;
            prev_lag_eq = refl;
            wrote_header_eq = refl;
          }),
      unfold flush_window in record { side_a_eq = refl; side_b_eq = refl },
    )
    report_corr-Ends a b start_s end_s (some corr, z) ta tb d rate h w ea e e' =
        let (long, short) = length-corr_full fl o.max_lag a b h in
        let small =
          abs_ℤ-sub_ℕ z (argmax fl corr) (omega (arith, argmax-lt fl corr (omega arith))) in
        unfold report_peak in
        report_decision-Ends start_s end_s _ _ _ ta tb d rate e e' (omega arith) (omega arith)

    report_from-Ends :
        (a b : List ℤ) (ta tb : List ℕ) (d : Decoder F)
        → eq s.samplerate (of_int (pos 0)) ≡ false
        → 0 < o.win_frames
        → length a ≡ o.win_frames
        → length ta ≡ o.win_frames
        → length tb ≡ o.win_frames
        → Ends d (report_from fl o s a b ta tb d)
    unfolding report_from
    report_from-Ends a b [] tb d rate w ea e e' = absurd (omega arith)
    report_from-Ends a b (t ∷ ts) tb d rate w ea e e' =
        report_corr-Ends a b t _ _ (t ∷ ts) tb d rate refl w ea e e'

    -- With a sample rate other than 0 and a full window on both sides `report_window` never fails, takes the window off both
    -- queues, and ends in one of three ways: a silent window, a rejected one, or an accepted one
    -- (`WasSilent`, `WasRejected` and `WasAccepted` say what each leaves behind). In particular
    -- the branch for a lag that leaves no overlapping frames is never taken.
    pub report_window-Outcome :
        (d : Decoder F)
        → eq s.samplerate (of_int (pos 0)) ≡ false
        → 0 < o.win_frames
        → IsValid o d.state_a
        → IsValid o d.state_b
        → o.win_frames ≤ length d.state_a.pcm
        → o.win_frames ≤ length d.state_b.pcm
        → (d' : Decoder F) × (report_window fl o s d ≡ some d')
          × Outcome fl o s d d'
          × IsFlushed fl o s d d'
    unfolding report_window
    report_window-Outcome d rate w va vb ha hb =
        report_from-Ends (take o.win_frames d.state_a.pcm) _ (take o.win_frames d.state_a.ws_times)
          (take o.win_frames d.state_b.ws_times) d rate w
          (omega (arith, length-take o.win_frames d.state_a.pcm))
          (omega (arith, length-take o.win_frames d.state_a.ws_times))
          (omega (arith, length-take o.win_frames d.state_b.ws_times))
