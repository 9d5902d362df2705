-- ===== src/Decoder/Bus.antt =====
-- scripts/decoders/i2s_skew/pd.py: the state of one bus and the handlers of its two kinds of edge.
-- A bus is the dict of `_new_bus`, with the two keys that `decode` adds before its loop. A PCM
-- word is a float of a small integer in the source, which is exact, so it is an integer here.
use esphome_snapcast.Base.{
  ℕ, ◌+◌, ◌-◌, ◌*◌, ◌^◌, Bool, true, false, List, [], ◌∷◌, ◌++◌, ltb, leb, if◌then◌else◌, length,
  drop,
}
use esphome_snapcast.Base.Int.{ℤ, pos, sub_ℕ}

pub record Bus : Type 0 where
  pub bits : List Bool
  pub pcm : List ℤ
  pub ws_times : List ℕ
  pub counting : Bool
  pub frame_start : ℕ
  pub seen : ℕ

-- The integer options; a negative one has no use in the source.
pub record Options : Type 0 where
  pub bits_per_slot : ℕ
  pub delay : ℕ
  pub win_frames : ℕ
  pub lag_slack : ℕ
  pub max_lag : ℕ

unfoldable pub new_bus : Bus
new_bus = record { bits = []; pcm = []; ws_times = []; counting = false; frame_start = 0; seen = 0 }

abbrev pub bit_value : Bool → ℕ
bit_value true = 1
bit_value false = 0

-- `for b in bits: word = (word << 1) | b`; the low bit of `word << 1` is 0, so `|` is a sum.
unfoldable pub shift_in : ℕ → List Bool → ℕ
shift_in word [] = word
shift_in word (b ∷ bs) = shift_in (word * 2 + bit_value b) bs

-- `if word >= (1 << (n - 1)): word -= 1 << n`
unfoldable pub sign_extend : ℕ → ℕ → ℤ
sign_extend n word = if leb (2 ^ (n - 1)) word then sub_ℕ word (2 ^ n) else pos word

-- The slot that ends, if any bit of it was read: its word and its start, appended together.
unfoldable pub close_slot : List Bool → Bus → Bus
close_slot [] bus = bus
close_slot (b ∷ bs) bus = record bus {
  pcm = bus.pcm ++ sign_extend (length (b ∷ bs)) (shift_in 0 (b ∷ bs)) ∷ [];
  ws_times = bus.ws_times ++ bus.frame_start ∷ [];
}

-- `_on_ws_edge`
unfoldable pub on_ws_edge : Bus → ℕ → Bus
unfolding close_slot
on_ws_edge bus samplenum = record (close_slot bus.bits bus) {
  bits = [];
  frame_start = samplenum;
  counting = true;
  seen = 0;
}

-- `_on_bclk_edge`
unfoldable pub on_bclk_edge : Options → Bus → Bool → Bus
on_bclk_edge o bus din =
    if bus.counting
    then (let seen = bus.seen + 1 in
        if leb seen o.delay
        then record bus { seen = seen }
        else if ltb (length bus.bits) o.bits_per_slot
        then record bus { seen = seen; bits = bus.bits ++ din ∷ [] }
        else record bus { seen = seen; counting = false })
    else bus

-- The handlers over one slot: a WS edge, then one BCLK edge for each level of DIN.
unfoldable pub clock_in : Options → Bus → List Bool → Bus
clock_in o bus [] = bus
clock_in o bus (din ∷ dins) = clock_in o (on_bclk_edge o bus din) dins

-- `flush_window`, for one bus
unfoldable pub flush_bus : ℕ → Bus → Bus
flush_bus win_frames bus = record bus {
  pcm = drop win_frames bus.pcm;
  ws_times = drop win_frames bus.ws_times;
}
