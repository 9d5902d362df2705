-- ===== src/Decoder/Words.antt =====
-- scripts/decoders/i2s_skew/pd.py: the PCM word of a slot is the two's complement of its bits.
use native.Mathlib.Nat.{pow-suc, mul_comm}
use esphome_snapcast.Base.{
  ℕ, suc, ◌+◌, ◌-◌, ◌*◌, ◌^◌, ◌<◌, ◌≡◌, refl, ◌∙◌, Bool, true, false, List, [], ◌∷◌, arith, length,
  ap, ◌++◌, take, drop,
}
use esphome_snapcast.Base.Int.{ℤ, pos, sub_ℕ}
use esphome_snapcast.Decoder.Bus.{
  Bus, Options, bit_value, shift_in, sign_extend, close_slot, on_ws_edge, on_bclk_edge, clock_in,
}
use esphome_snapcast.Decoder.Slots.{clock_in-on_ws_edge}

-- The value of bits with the most significant first, and their two's complement: the first bit
-- counts negatively.
pub magnitude : List Bool → ℕ
magnitude [] = 0
magnitude (b ∷ bs) = bit_value b * 2 ^ length bs + magnitude bs

pub twos_complement : List Bool → ℤ
twos_complement [] = pos 0
twos_complement (b ∷ bs) = sub_ℕ (magnitude bs) (bit_value b * 2 ^ length bs)

pow-suc_two : (n : ℕ) → 2 ^ suc n ≡ 2 * 2 ^ n
pow-suc_two n = pow-suc 2 n ∙ mul_comm _ 2

magnitude-lt : (bs : List Bool) → magnitude bs < 2 ^ length bs
unfolding magnitude
magnitude-lt [] = omega arith
magnitude-lt (true ∷ bs) = omega (arith, magnitude-lt bs, pow-suc_two (length bs))
magnitude-lt (false ∷ bs) = omega (arith, magnitude-lt bs, pow-suc_two (length bs))

regroup : (w b p m : ℕ) → (w * 2 + b) * p + m ≡ w * (2 * p) + (b * p + m)
regroup w b p m = omega arith

shift_in-magnitude : (w : ℕ) (bs : List Bool) → shift_in w bs ≡ w * 2 ^ length bs + magnitude bs
unfolding shift_in magnitude
shift_in-magnitude w [] = omega arith
shift_in-magnitude w (b ∷ bs) =
    rw (pow-suc_two (length bs))
      (shift_in-magnitude (w * 2 + bit_value b) bs ∙ regroup w (bit_value b) _ (magnitude bs))

sign_extend_of :
    (n p m word : ℕ) (b : Bool)
    → 2 ^ (n - 1) ≡ p
    → 2 ^ n ≡ 2 * p
    → word ≡ bit_value b * p + m
    → m < p
    → sign_extend n word ≡ sub_ℕ m (bit_value b * p)
unfolding sign_extend
sign_extend_of n p m word true half whole w h = rw (half, whole, w) (ground arith)
sign_extend_of n p m word false half whole w h = rw (half, whole, w) (ground arith)

-- The word of a slot is the two's complement of its bits, the first bit read being the sign.
pub sign_extend-shift_in :
    (b : Bool) (bs : List Bool)
    → sign_extend (length (b ∷ bs)) (shift_in 0 (b ∷ bs)) ≡ twos_complement (b ∷ bs)
unfolding twos_complement
sign_extend-shift_in b bs =
    sign_extend_of (length (b ∷ bs)) (2 ^ length bs) (magnitude bs) (shift_in 0 (b ∷ bs)) b
      (ap (λ n. 2 ^ n) (omega arith)) (pow-suc_two (length bs))
      (shift_in-magnitude 0 (b ∷ bs) ∙ unfold magnitude in omega arith) (magnitude-lt bs)

clock_in-keeps :
    (o : Options) (bus : Bus) (dins : List Bool)
    → ((clock_in o bus dins).pcm ≡ bus.pcm)
      × ((clock_in o bus dins).ws_times ≡ bus.ws_times)
      × ((clock_in o bus dins).frame_start ≡ bus.frame_start)
unfolding clock_in on_bclk_edge
clock_in-keeps o bus [] = (refl, refl, refl)
clock_in-keeps o bus (din ∷ dins) = ground (arith, clock_in-keeps o (on_bclk_edge o bus din) dins)

-- A whole slot, from the WS edge at `t` to the next one: if at least one bit of it is read, the
-- bus gains exactly one word, the two's complement of the levels that DIN had on the
-- `bits_per_slot` clocks behind the first `delay`, and with it exactly one time, `t`.
pub slot_lem :
    (o : Options) (bus : Bus) (t next : ℕ) (dins : List Bool) (b : Bool) (bs : List Bool)
    → take o.bits_per_slot (drop o.delay dins) ≡ b ∷ bs
    → let opened = on_ws_edge bus t in
      let closed = on_ws_edge (clock_in o opened dins) next in
      (closed.pcm ≡ opened.pcm ++ twos_complement (b ∷ bs) ∷ [])
      × (closed.ws_times ≡ opened.ws_times ++ t ∷ [])
unfolding on_ws_edge
slot_lem o bus t next dins b bs h =
    let opened = on_ws_edge bus t in
    let (same_pcm, same_times, same_start) = clock_in-keeps o opened dins in
    rw
      (
        clock_in-on_ws_edge o bus t dins ∙ h,
        close_slot,
        sign_extend-shift_in b bs,
        same_pcm,
        same_times,
        same_start,
      )
      (refl, refl)
