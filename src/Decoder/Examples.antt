-- ===== src/Decoder/Examples.antt =====
-- scripts/decoders/i2s_skew/pd.py: the decoder at concrete inputs.
use esphome_snapcast.Base.{
  ℕ, ◌*◌, ◌≡◌, refl, Bool, true, false, none, some, List, [], ◌∷◌, ◌++◌, arith, length, leb,
}
use esphome_snapcast.Base.Int.{ℤ, pos, negsuc}
use esphome_snapcast.Decoder.Bus.{
  Bus, Options, new_bus, on_ws_edge, on_bclk_edge, clock_in, sign_extend, shift_in,
}
use esphome_snapcast.Decoder.Words.{twos_complement, slot_lem}
use esphome_snapcast.Base.Float.{whole}
use esphome_snapcast.Decoder.Window.{Settings, Decoder, report_window}
use esphome_snapcast.Decoder.Verdicts.{Outcome, IsFlushed}
use esphome_snapcast.Decoder.Outcomes.{report_window-Outcome}
use esphome_snapcast.Decoder.Loop.{Tag, Wait, bitmask, decode}
use esphome_snapcast.Decoder.Flags.{length-matched_flags}
use esphome_snapcast.Decoder.Rounds.{IsReady, Flagged, decode-IsReady}

abbrev options : Options
options = record { bits_per_slot = 3; delay = 1; win_frames = 2; lag_slack = 2; max_lag = 64 }

abbrev settings : Settings ℤ
settings = record { min_peak = pos 1; min_margin = pos 1; samplerate = pos 10 }

abbrev levels : List Bool
levels = true ∷ true ∷ false ∷ true ∷ true ∷ []

-- The first clock is the delay, the last one is behind the slot's three bits.
slot_bits : (clock_in options (on_ws_edge new_bus 7) levels).bits ≡ true ∷ false ∷ true ∷ []
unfolding clock_in on_ws_edge on_bclk_edge new_bus
slot_bits = refl

word_of_slot : (on_ws_edge (clock_in options (on_ws_edge new_bus 7) levels) 20).pcm ≡ negsuc 2 ∷ []
unfolding clock_in on_ws_edge on_bclk_edge new_bus sign_extend shift_in
word_of_slot = refl

slot_lem_example :
    let opened = on_ws_edge new_bus 7 in
    let closed = on_ws_edge (clock_in options opened levels) 20 in
    (closed.pcm ≡ opened.pcm ++ twos_complement (true ∷ false ∷ true ∷ []) ∷ [])
    × (closed.ws_times ≡ opened.ws_times ++ 7 ∷ [])
slot_lem_example = slot_lem options new_bus 7 20 levels true (false ∷ true ∷ []) refl

abbrev full_bus : List ℕ → Bus
full_bus times = record {
  bits = [];
  pcm = pos 3 ∷ negsuc 1 ∷ pos 2 ∷ [];
  ws_times = times;
  counting = true;
  frame_start = 90;
  seen = 4;
}

abbrev full : Decoder ℤ
full = record {
  state_a = full_bus (10 ∷ 40 ∷ 70 ∷ []);
  state_b = full_bus (12 ∷ 42 ∷ 72 ∷ []);
  prev_lag = none;
  wrote_header = false;
  out = [];
}

report_window-Outcome_example :
    (d' : Decoder ℤ) × (report_window whole options settings full ≡ some d')
    × Outcome whole options settings full d'
    × IsFlushed whole options settings full d'
report_window-Outcome_example =
    report_window-Outcome whole options settings full refl (omega arith) (omega arith) (omega arith)
      (omega arith) (omega arith)

-- Every condition fires in every round.
abbrev all_fire : ℕ → List Tag → Wait
all_fire k ts = record { samplenum = 10 * k; matched = bitmask 15; pins = λ pin. leb 3 pin }

all_fire-Flagged : Flagged whole options all_fire
all_fire-Flagged k ts = length-matched_flags 15 (length ts)

decode-IsReady_example :
    (d : Decoder ℤ) × (decode whole options (pos 1) (pos 1) (some (pos 10)) all_fire 30 ≡ some d)
    × IsReady whole options d
decode-IsReady_example =
    decode-IsReady whole options (pos 1) (pos 1) (pos 10) all_fire 30 refl (omega arith)
      all_fire-Flagged
