-- ===== src/Decoder/Verdicts.antt =====
-- scripts/decoders/i2s_skew/pd.py: the ways in which `report_window` may end.
use esphome_snapcast.Base.{
  ℕ, ◌+◌, ◌≤◌, ◌<◌, ◌≡◌, Bool, true, false, ◌||◌, ◌⊎◌, none, some, List, [], ◌∷◌, ◌++◌,
}
use esphome_snapcast.Base.Int.{ℤ, abs_ℤ}
use esphome_snapcast.Decoder.Bus.{Options, flush_bus}
use esphome_snapcast.Base.Float.{Float}
use esphome_snapcast.Decoder.Window.{
  Annotation, Reason, weak_peak, close_rival, silent, unmatched, skew, info, csv_header, csv_row,
  Settings, Decoder, is_continuous,
}

-- The header goes out before the first row alone.
abbrev pub header_if_new : {F : Type 0} → Bool → ℕ → List (Annotation F)
header_if_new true start_s = []
header_if_new false start_s = csv_header start_s ∷ []

module _ (fl : Float) where
  open fl use {F, of_int, sub, div, lt, le}

  module _ (o : Options) (s : Settings F) where
    -- A silent window leaves a note; the lag of the window before it stays.
    pub record WasSilent (d d' : Decoder F) : Type 0 where
      pub start_s : ℕ
      pub end_s : ℕ
      pub out_eq : d'.out ≡ d.out ++ silent start_s end_s ∷ []
      pub prev_lag_eq : d'.prev_lag ≡ d.prev_lag
      pub wrote_header_eq : d'.wrote_header ≡ d.wrote_header

    -- A rejected window leaves a note, and no lag for the next window to agree with. Its peak was
    -- weak, or it had neither the margin nor the agreement.
    pub record WasRejected (d d' : Decoder F) : Type 0 where
      pub start_s : ℕ
      pub end_s : ℕ
      pub why : Reason
      pub best : F
      pub rival : F
      pub lag : ℤ
      pub tests :
          (why ≡ weak_peak) × (lt best s.min_peak ≡ true)
          ⊎ (why ≡ close_rival)
            × (lt best s.min_peak ≡ false)
            × (le s.min_margin (sub best rival) || is_continuous o.lag_slack d.prev_lag lag ≡ false)
      pub out_eq : d'.out ≡ d.out ++ unmatched start_s end_s why best rival lag ∷ []
      pub prev_lag_eq : d'.prev_lag ≡ none
      pub wrote_header_eq : d'.wrote_header ≡ d.wrote_header

    -- An accepted window passed both tests, and leaves the skew, its details, one CSV row behind
    -- a header if none went out before, and its lag, which pairs all but `|lag|` of its frames.
    pub record WasAccepted (d d' : Decoder F) : Type 0 where
      pub start_s : ℕ
      pub end_s : ℕ
      pub best : F
      pub rival : F
      pub lag : ℤ
      pub pairs : ℕ
      pub skew_us : F
      pub spread_us : F
      pub time_s : F
      pub strong : lt best s.min_peak ≡ false
      pub confirmed :
          le s.min_margin (sub best rival) || is_continuous o.lag_slack d.prev_lag lag ≡ true
      pub lag_bounded : abs_ℤ lag ≤ o.max_lag
      pub lag_inside : abs_ℤ lag < o.win_frames
      pub pairs_eq : pairs + abs_ℤ lag ≡ o.win_frames
      pub out_eq :
          d'.out
          ≡ (((d.out ++ skew start_s end_s skew_us lag pairs ∷ [])
                ++ info start_s end_s best rival
                    (sub best rival)
                    spread_us
                    (is_continuous o.lag_slack d.prev_lag lag)
                  ∷ [])
              ++ header_if_new d.wrote_header start_s)
            ++ csv_row start_s time_s skew_us lag best rival spread_us pairs ∷ []
      pub prev_lag_eq : d'.prev_lag ≡ some lag
      pub wrote_header_eq : d'.wrote_header ≡ true

    abbrev pub Outcome : Decoder F → Decoder F → Type 0
    Outcome d d' = WasSilent d d' ⊎ WasRejected d d' ⊎ WasAccepted d d'

    -- The window has left both queues.
    pub record IsFlushed (d d' : Decoder F) : Type 0 where
      pub side_a_eq : d'.state_a ≡ flush_bus o.win_frames d.state_a
      pub side_b_eq : d'.state_b ≡ flush_bus o.win_frames d.state_b
