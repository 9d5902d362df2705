-- ===== src/Decoder/Slots.antt =====
-- scripts/decoders/i2s_skew/pd.py: what one slot of a bus decodes to, and what every edge keeps.
use esphome_snapcast.Base.{
  ℕ, suc, ◌+◌, ◌-◌, ◌≤◌, ◌<◌, ◌≡◌, refl, ◌∙◌, ap, Bool, true, false, List, [], ◌∷◌, ◌++◌, arith,
  inl, inr, length, take, drop, length-append, length-drop, take-nil, drop-nil, le_or_lt,
}
use mathlib.Core.List.{append-nil, append_assoc}
use esphome_snapcast.Decoder.Bus.{
  Bus, Options, new_bus, shift_in, sign_extend, close_slot, on_ws_edge, on_bclk_edge, clock_in,
  flush_bus,
}

-- The two lists of a bus have one length, and no more bits are kept than a slot has.
pub record IsValid (o : Options) (bus : Bus) : Type 0 where
  pub paired : length bus.pcm ≡ length bus.ws_times
  pub bounded : length bus.bits ≤ o.bits_per_slot

pub new_bus-IsValid : (o : Options) → IsValid o new_bus
unfolding new_bus
new_bus-IsValid o = omega arith

close_slot-paired :
    (bs : List Bool) (bus : Bus)
    → length bus.pcm ≡ length bus.ws_times
    → length (close_slot bs bus).pcm ≡ length (close_slot bs bus).ws_times
unfolding close_slot
close_slot-paired [] bus h = h
close_slot-paired (b ∷ bs) bus h = omega (
  arith,
  length-append bus.pcm (sign_extend (length (b ∷ bs)) (shift_in 0 (b ∷ bs)) ∷ []),
  length-append bus.ws_times (bus.frame_start ∷ []),
)

pub on_ws_edge-IsValid :
    (o : Options) (bus : Bus) (t : ℕ) → IsValid o bus → IsValid o (on_ws_edge bus t)
unfolding on_ws_edge
on_ws_edge-IsValid o bus t v = ground (arith, close_slot-paired bus.bits bus)

pub on_bclk_edge-IsValid :
    (o : Options) (bus : Bus) (din : Bool) → IsValid o bus → IsValid o (on_bclk_edge o bus din)
unfolding on_bclk_edge
on_bclk_edge-IsValid o bus din v = ground (arith, length-append bus.bits (din ∷ []))

pub flush_bus-IsValid :
    (o : Options) (bus : Bus) (n : ℕ) → IsValid o bus → IsValid o (flush_bus n bus)
unfolding flush_bus
flush_bus-IsValid o bus n v = ground (arith, length-drop n bus.pcm, length-drop n bus.ws_times)

bclk_stopped :
    (o : Options) (bus : Bus) (din : Bool) → bus.counting ≡ false → on_bclk_edge o bus din ≡ bus
unfolding on_bclk_edge
bclk_stopped o bus din h = ground arith

bclk_early :
    (o : Options) (bus : Bus) (din : Bool)
    → bus.counting ≡ true
    → bus.seen < o.delay
    → on_bclk_edge o bus din ≡ record bus { seen = bus.seen + 1 }
unfolding on_bclk_edge
bclk_early o bus din h e = ground arith

bclk_read :
    (o : Options) (bus : Bus) (din : Bool)
    → bus.counting ≡ true
    → o.delay ≤ bus.seen
    → length bus.bits < o.bits_per_slot
    → on_bclk_edge o bus din ≡ record bus { seen = bus.seen + 1; bits = bus.bits ++ din ∷ [] }
unfolding on_bclk_edge
bclk_read o bus din h e f = ground arith

bclk_full :
    (o : Options) (bus : Bus) (din : Bool)
    → bus.counting ≡ true
    → o.delay ≤ bus.seen
    → o.bits_per_slot ≤ length bus.bits
    → on_bclk_edge o bus din ≡ record bus { seen = bus.seen + 1; counting = false }
unfolding on_bclk_edge
bclk_full o bus din h e f = ground arith

clock_in-stopped :
    (o : Options) (bus : Bus) (dins : List Bool) → bus.counting ≡ false → clock_in o bus dins ≡ bus
unfolding clock_in
clock_in-stopped o bus [] h = refl
clock_in-stopped o bus (din ∷ dins) h =
    rw (bclk_stopped o bus din h) (clock_in-stopped o bus dins h)

clock_in-cons :
    (o : Options) (bus bus' : Bus) (din : Bool) (dins : List Bool)
    → on_bclk_edge o bus din ≡ bus'
    → clock_in o bus (din ∷ dins) ≡ clock_in o bus' dins
unfolding clock_in
clock_in-cons o bus bus' din dins e = ap (λ (b : Bus). clock_in o b dins) e

-- What is still to be read of a slot, from any point inside it.
clock_in-bits :
    (o : Options) (bus : Bus) (dins : List Bool)
    → bus.counting ≡ true
    → (clock_in o bus dins).bits
      ≡ bus.bits ++ take (o.bits_per_slot - length bus.bits) (drop (o.delay - bus.seen) dins)
clock_in-bits o bus [] h = rw (drop-nil, take-nil, append-nil) (unfold clock_in in refl)
clock_in-bits o bus (din ∷ dins) h = elim (le_or_lt o.delay bus.seen) [
  | inr early ↦
      let e : o.delay - bus.seen ≡ suc (o.delay - (bus.seen + 1)) = omega arith in
      rw (clock_in-cons o bus _ din dins (bclk_early o bus din h early), e)
        (clock_in-bits o (record bus { seen = bus.seen + 1 }) dins h)
  | inl late ↦ elim (le_or_lt o.bits_per_slot (length bus.bits)) [
    | inl full ↦
        let e : o.bits_per_slot - length bus.bits ≡ 0 = omega arith in
        rw (clock_in-cons o bus _ din dins (bclk_full o bus din h late full), e, append-nil)
          (ap (λ (b : Bus). b.bits) (clock_in-stopped o _ dins refl))
    | inr room ↦
        let e : o.bits_per_slot - length bus.bits
            ≡ suc (o.bits_per_slot - length (bus.bits ++ din ∷ [])) =
          omega (arith, length-append bus.bits (din ∷ [])) in
        let z : o.delay - bus.seen ≡ 0 = omega arith in
        let z' : o.delay - (bus.seen + 1) ≡ 0 = omega arith in
        rw (clock_in-cons o bus _ din dins (bclk_read o bus din h late room), e, z)
          (clock_in-bits o (record bus { seen = bus.seen + 1; bits = bus.bits ++ din ∷ [] }) dins h
            ∙ rw z' (append_assoc bus.bits (din ∷ []) _))
  ]
]

-- After a WS edge the slot holds the first `bits_per_slot` levels of DIN behind `delay` clocks,
-- whatever the number of clocks.
pub clock_in-on_ws_edge :
    (o : Options) (bus : Bus) (t : ℕ) (dins : List Bool)
    → (clock_in o (on_ws_edge bus t) dins).bits ≡ take o.bits_per_slot (drop o.delay dins)
unfolding on_ws_edge
clock_in-on_ws_edge o bus t dins =
    let whole : o.bits_per_slot - 0 ≡ o.bits_per_slot = omega arith in
    let wait : o.delay - 0 ≡ o.delay = omega arith in
    clock_in-bits o (on_ws_edge bus t) dins refl ∙ rw (whole, wait)
