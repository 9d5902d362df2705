-- ===== src/Decoder/Loop.antt =====
-- scripts/decoders/i2s_skew/pd.py: the loop of `decode`, one `wait` at a time. Which conditions
-- fired, and the levels of the pins, are what libsigrokdecode hands over.
use esphome_snapcast.Base.{
  ℕ, zero, suc, ◌/◌, ◌%◌, Bool, false, ◌&&◌, Option, none, some, List, [], ◌∷◌, ◌++◌, map, leb,
  ◌==◌, if◌then◌else◌, length, range_from,
}
use esphome_snapcast.Decoder.Bus.{Bus, Options, new_bus, on_ws_edge, on_bclk_edge}
use esphome_snapcast.Base.Float.{Float}
use esphome_snapcast.Decoder.Window.{Settings, Decoder, report_window}

pub data Side : Type 0 where
  side_a side_b : Side

-- An entry of `tags`, in step with `conds`: a BCLK edge with the pin of its data, or a WS edge.
pub data Tag : Type 0 where
  bclk : Side → ℕ → Tag
  ws : Side → Tag

-- `self.matched`: an integer bitmask in older releases, a tuple of bools in current ones.
pub data Matched : Type 0 where
  bitmask : ℕ → Matched
  flags : List Bool → Matched

-- What one `wait` returns with.
pub record Wait : Type 0 where
  pub samplenum : ℕ
  pub matched : Matched
  pub pins : ℕ → Bool

-- `bool(matched & (1 << i))`
unfoldable pub bit_set : ℕ → ℕ → Bool
bit_set m zero = (m % 2) == 1
bit_set m (suc i) = bit_set (m / 2) i

unfoldable pub matched_flags : Matched → ℕ → List Bool
unfolding bit_set
matched_flags (bitmask m) count = map (bit_set m) (range_from 0 count)
matched_flags (flags fs) count = fs

abbrev pub bclk_tag : Bus → Side → ℕ → List Tag
bclk_tag bus side din_idx = if bus.counting then bclk side din_idx ∷ [] else []

-- A bus waits for its BCLK only while the slot still wants bits.
unfoldable pub tags : {F : Type 0} → Decoder F → List Tag
tags d =
    bclk_tag d.state_a side_a 2 ++ (ws side_a ∷ (bclk_tag d.state_b side_b 5 ++ ws side_b ∷ []))

abbrev pub on_side : {F : Type 0} → Side → (Bus → Bus) → Decoder F → Decoder F
on_side side_a f d = record d { state_a = f d.state_a }
on_side side_b f d = record d { state_b = f d.state_b }

unfoldable pub handle : {F : Type 0} → Options → Wait → Tag → Decoder F → Decoder F
handle o w (ws side) d = on_side side (λ bus. on_ws_edge bus w.samplenum) d
handle o w (bclk side din_idx) d = on_side side (λ bus. on_bclk_edge o bus (w.pins din_idx)) d

-- `for i, (kind, bus, din_idx) in enumerate(tags)`; `none` is the IndexError of `m[i]`.
unfoldable pub dispatch :
    {F : Type 0} → Options → Wait → List Tag → List Bool → Decoder F → Option (Decoder F)
unfolding handle
dispatch o w [] m d = some d
dispatch o w (t ∷ ts) [] d = none
dispatch o w (t ∷ ts) (fired ∷ m) d = dispatch o w ts m (if fired then handle o w t d else d)

module _ (fl : Float) (o : Options) where
  open fl use {F}

  -- Both buses hold a full window.
  unfoldable pub window_ready : Decoder F → Bool
  window_ready d =
      leb o.win_frames (length d.state_a.pcm) && leb o.win_frames (length d.state_b.pcm)

  unfoldable pub report_if_ready : Settings F → Decoder F → Option (Decoder F)
  unfolding window_ready
  report_if_ready s d = if window_ready d then report_window fl o s d else some d

  -- One round of `while True`.
  unfoldable pub decode_round : Settings F → Wait → Decoder F → Option (Decoder F)
  decode_round s w d =
      let ts = tags d in
      elim (dispatch o w ts (matched_flags w.matched (length ts)) d) [
        | none ↦ none
        | some d' ↦ report_if_ready s d'
      ]

  -- `n` rounds from round `k` on, where `wait k ts` is what the conditions of `ts` wait for.
  unfoldable pub decode_rounds :
      Settings F → (ℕ → List Tag → Wait) → ℕ → ℕ → Decoder F → Option (Decoder F)
  decode_rounds s wait zero k d = some d
  decode_rounds s wait (suc n) k d = elim (decode_round s (wait k (tags d)) d) [
    | none ↦ none
    | some d' ↦ decode_rounds s wait n (suc k) d'
  ]

  -- The decoder after `reset` and `start`.
  unfoldable pub started : Decoder F
  unfolding new_bus
  started = record {
    state_a = new_bus;
    state_b = new_bus;
    prev_lag = none;
    wrote_header = false;
    out = [];
  }

-- `n` rounds of `decode`, given the sample rate that `metadata` was told: without one it raises.
unfoldable pub decode :
    (fl : Float)
    → Options
    → fl.F
    → fl.F
    → Option fl.F
    → (ℕ → List Tag → Wait)
    → ℕ
    → Option (Decoder fl.F)
unfolding decode_rounds started
decode fl o min_peak min_margin none wait n = none
decode fl o min_peak min_margin (some rate) wait n =
    decode_rounds fl o (record { min_peak = min_peak; min_margin = min_margin; samplerate = rate })
      wait n 0 (started fl o)
