-- ===== src/Decoder/Flags.antt =====
-- scripts/decoders/i2s_skew/pd.py: the two forms of `self.matched` are read alike.
use esphome_snapcast.Base.{
  ℕ, zero, suc, ◌+◌, ◌*◌, ◌/◌, ◌≡◌, refl, ap, ◌∙◌, Bool, true, false, List, [], ◌∷◌, map, arith,
  length, range_from, length-range_from, length-map,
}
use mathlib.Core.Path.{ap₂}
use esphome_snapcast.Decoder.Bus.{bit_value}
use esphome_snapcast.Decoder.Loop.{bitmask, flags, bit_set, matched_flags}

-- The bitmask that an older release reports for the conditions that fired.
pub mask_of : List Bool → ℕ
mask_of [] = 0
mask_of (b ∷ bs) = bit_value b + 2 * mask_of bs

map-bit_set-suc :
    (m i n : ℕ) → map (bit_set m) (range_from (suc i) n) ≡ map (bit_set (m / 2)) (range_from i n)
unfolding bit_set
map-bit_set-suc m i zero = refl
map-bit_set-suc m i (suc n) = ap (λ r. bit_set (m / 2) i ∷ r) (map-bit_set-suc m (suc i) n)

half_mask : (b : Bool) (bs : List Bool) → mask_of (b ∷ bs) / 2 ≡ mask_of bs
unfolding mask_of
half_mask true bs = omega arith
half_mask false bs = omega arith

low_bit : (b : Bool) (bs : List Bool) → bit_set (mask_of (b ∷ bs)) 0 ≡ b
unfolding mask_of bit_set
low_bit true bs = ground arith
low_bit false bs = ground arith

flags_of_mask : (fs : List Bool) → map (bit_set (mask_of fs)) (range_from 0 (length fs)) ≡ fs
flags_of_mask [] = refl
flags_of_mask (b ∷ bs) =
    ap₂ ◌∷◌ (low_bit b bs)
      (map-bit_set-suc (mask_of (b ∷ bs)) 0 (length bs) ∙ rw (half_mask b bs) (flags_of_mask bs))

-- Whichever form a release reports the fired conditions in, the flags come out the same.
pub matched_flags-mask_of :
    (fs : List Bool)
    → (matched_flags (bitmask (mask_of fs)) (length fs) ≡ fs)
      × (matched_flags (flags fs) (length fs) ≡ fs)
unfolding matched_flags
matched_flags-mask_of fs = (flags_of_mask fs, refl)

pub length-matched_flags : (m count : ℕ) → length (matched_flags (bitmask m) count) ≡ count
unfolding matched_flags
length-matched_flags m count = length-map (range_from 0 count) _ ∙ length-range_from 0 count
