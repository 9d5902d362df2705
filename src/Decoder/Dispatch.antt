-- ===== src/Decoder/Dispatch.antt =====
-- scripts/decoders/i2s_skew/pd.py: what handling the tags of one `wait` keeps of the buses.
use esphome_snapcast.Base.{
  ℕ, suc, ◌+◌, ◌≤◌, ◌≡◌, refl, ◌∙◌, Bool, true, false, some, List, [], ◌∷◌, arith, length,
  length-append,
}
use esphome_snapcast.Decoder.Bus.{
  Bus, Options, sign_extend, shift_in, close_slot, on_ws_edge, on_bclk_edge,
}
use esphome_snapcast.Decoder.Slots.{IsValid, on_ws_edge-IsValid, on_bclk_edge-IsValid}
use esphome_snapcast.Decoder.Window.{Decoder}
use esphome_snapcast.Decoder.Loop.{
  Side, side_a, side_b, Tag, bclk, ws, Wait, tags, handle, dispatch,
}

-- How often a WS edge of a side stands among tags.
abbrev pub ws_count : Side → List Tag → ℕ
ws_count side [] = 0
ws_count side_a (ws side_a ∷ ts) = suc (ws_count side_a ts)
ws_count side_b (ws side_b ∷ ts) = suc (ws_count side_b ts)
ws_count side (t ∷ ts) = ws_count side ts

ws_count-cons :
    (side : Side) (t : Tag) (ts : List Tag)
    → ws_count side (t ∷ ts) ≡ ws_count side (t ∷ []) + ws_count side ts
ws_count-cons side_a (ws side_a) ts = omega arith
ws_count-cons side_a (ws side_b) ts = omega arith
ws_count-cons side_a (bclk _ _) ts = omega arith
ws_count-cons side_b (ws side_a) ts = omega arith
ws_count-cons side_b (ws side_b) ts = omega arith
ws_count-cons side_b (bclk _ _) ts = omega arith

length-close_slot :
    (bs : List Bool) (bus : Bus) → length (close_slot bs bus).pcm ≤ length bus.pcm + 1
unfolding close_slot
length-close_slot [] bus = omega arith
length-close_slot (b ∷ bs) bus =
    omega (arith, length-append bus.pcm (sign_extend (length (b ∷ bs)) (shift_in 0 (b ∷ bs)) ∷ []))

length-on_ws_edge : (bus : Bus) (t : ℕ) → length (on_ws_edge bus t).pcm ≤ length bus.pcm + 1
unfolding on_ws_edge
length-on_ws_edge bus t = length-close_slot bus.bits bus

length-on_bclk_edge :
    (o : Options) (bus : Bus) (din : Bool) → length (on_bclk_edge o bus din).pcm ≡ length bus.pcm
unfolding on_bclk_edge
length-on_bclk_edge o bus din = ground arith

module _ {F : Type 0} (o : Options) (w : Wait) where
  -- Both buses are valid, and a run of tags adds one word at most for each WS edge in it.
  pub record Dispatched (d d' : Decoder F) (ts : List Tag) : Type 0 where
    pub valid_a : IsValid o d'.state_a
    pub valid_b : IsValid o d'.state_b
    pub gain_a : length d'.state_a.pcm ≤ length d.state_a.pcm + ws_count side_a ts
    pub gain_b : length d'.state_b.pcm ≤ length d.state_b.pcm + ws_count side_b ts
    pub same_lag : d'.prev_lag ≡ d.prev_lag
    pub same_header : d'.wrote_header ≡ d.wrote_header
    pub same_out : d'.out ≡ d.out

  handle-Dispatched :
      (d : Decoder F) (t : Tag)
      → IsValid o d.state_a
      → IsValid o d.state_b
      → Dispatched d (handle o w t d) (t ∷ [])
  unfolding handle
  handle-Dispatched d (ws side_a) va vb = record {
    valid_a = on_ws_edge-IsValid o d.state_a w.samplenum va;
    valid_b = vb;
    gain_a = length-on_ws_edge d.state_a w.samplenum;
    gain_b = omega arith;
    same_lag = refl;
    same_header = refl;
    same_out = refl;
  }
  handle-Dispatched d (ws side_b) va vb = record {
    valid_a = va;
    valid_b = on_ws_edge-IsValid o d.state_b w.samplenum vb;
    gain_a = omega arith;
    gain_b = length-on_ws_edge d.state_b w.samplenum;
    same_lag = refl;
    same_header = refl;
    same_out = refl;
  }
  handle-Dispatched d (bclk side_a i) va vb = record {
    valid_a = on_bclk_edge-IsValid o d.state_a (w.pins i) va;
    valid_b = vb;
    gain_a = omega (arith, length-on_bclk_edge o d.state_a (w.pins i));
    gain_b = omega arith;
    same_lag = refl;
    same_header = refl;
    same_out = refl;
  }
  handle-Dispatched d (bclk side_b i) va vb = record {
    valid_a = va;
    valid_b = on_bclk_edge-IsValid o d.state_b (w.pins i) vb;
    gain_a = omega arith;
    gain_b = omega (arith, length-on_bclk_edge o d.state_b (w.pins i));
    same_lag = refl;
    same_header = refl;
    same_out = refl;
  }

  Dispatched-cons :
      (d e d' : Decoder F) (t : Tag) (ts : List Tag)
      → Dispatched d e (t ∷ [])
      → Dispatched e d' ts
      → Dispatched d d' (t ∷ ts)
  Dispatched-cons d e d' t ts p q = record {
    valid_a = q.valid_a;
    valid_b = q.valid_b;
    gain_a = omega (arith, p.gain_a, q.gain_a, ws_count-cons side_a t ts);
    gain_b = omega (arith, p.gain_b, q.gain_b, ws_count-cons side_b t ts);
    same_lag = q.same_lag ∙ p.same_lag;
    same_header = q.same_header ∙ p.same_header;
    same_out = q.same_out ∙ p.same_out;
  }

  Dispatched-skip :
      (d d' : Decoder F) (t : Tag) (ts : List Tag) → Dispatched d d' ts → Dispatched d d' (t ∷ ts)
  Dispatched-skip d d' t ts q = record {
    valid_a = q.valid_a;
    valid_b = q.valid_b;
    gain_a = omega (arith, q.gain_a, ws_count-cons side_a t ts);
    gain_b = omega (arith, q.gain_b, ws_count-cons side_b t ts);
    same_lag = q.same_lag;
    same_header = q.same_header;
    same_out = q.same_out;
  }

  -- With a flag for each tag, all tags are handled.
  pub dispatch-Dispatched :
      (ts : List Tag) (m : List Bool) (d : Decoder F)
      → length m ≡ length ts
      → IsValid o d.state_a
      → IsValid o d.state_b
      → (d' : Decoder F) × (dispatch o w ts m d ≡ some d') × Dispatched d d' ts
  unfolding dispatch
  dispatch-Dispatched [] m d e va vb = (
    d,
    refl,
    record {
      valid_a = va;
      valid_b = vb;
      gain_a = omega arith;
      gain_b = omega arith;
      same_lag = refl;
      same_header = refl;
      same_out = refl;
    },
  )
  dispatch-Dispatched (t ∷ ts) [] d e va vb = absurd (omega arith)
  dispatch-Dispatched (t ∷ ts) (true ∷ m) d e va vb =
      let p = handle-Dispatched d t va vb in
      let (d', run, q) =
        dispatch-Dispatched ts m (handle o w t d) (omega arith) p.valid_a p.valid_b in
      (d', run, Dispatched-cons d (handle o w t d) d' t ts p q)
  dispatch-Dispatched (t ∷ ts) (false ∷ m) d e va vb =
      let (d', run, q) = dispatch-Dispatched ts m d (omega arith) va vb in
      (d', run, Dispatched-skip d d' t ts q)

-- The tags of one round name each side's WS line once.
pub ws_count-tags :
    {F : Type 0} (d : Decoder F) → (ws_count side_a (tags d) ≡ 1) × (ws_count side_b (tags d) ≡ 1)
unfolding tags
ws_count-tags d = ground arith
