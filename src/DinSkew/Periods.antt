-- ===== src/DinSkew/Periods.antt =====
-- scripts/din-skew.py: the two loops of `unwrap_bitphase`, by whole periods.
use esphome_snapcast.Base.{
  ℕ, zero, suc, ◌+◌, ◌*◌, ◌≤◌, ◌≡◌, refl, ap, sym, ◌⊎◌, inl, inr, true, false, arith, Bool-cases,
}
use esphome_snapcast.Base.Int.{
  ℤ, pos, negsuc, pos_part, neg_part, ◌+ℤ◌, ◌-ℤ◌, ◌≤ℤ◌, ◌<ℤ◌, ltb_ℤ, abs_ℤ, eq_of_parts, int_laws,
}
use esphome_snapcast.DinSkew.BitPhase.{twice, lower, raise, settle}

-- The two differ by whole periods.
abbrev pub Aligned : ℕ → ℤ → ℤ → Type 0
Aligned bit x y = (k : ℕ) × (j : ℕ) × (x +ℤ pos (k * bit) ≡ y +ℤ pos (j * bit))

-- At most half a period.
abbrev pub IsHalf : ℕ → ℤ → Type 0
IsHalf bit d = (twice d ≤ℤ pos bit) × (pos 0 -ℤ pos bit ≤ℤ twice d)

pub Aligned-refl : (bit : ℕ) (x : ℤ) → Aligned bit x x
Aligned-refl bit x = (0, 0, refl)

pub Aligned-trans : (bit : ℕ) (x y z : ℤ) → Aligned bit x y → Aligned bit y z → Aligned bit x z
Aligned-trans bit x y z (k, j, e) (k', j', e') =
    let left : (k + k') * bit ≡ k * bit + k' * bit = grind arith in
    let right : (j + j') * bit ≡ j * bit + j' * bit = grind arith in
    (
      k + k',
      j + j',
      eq_of_parts _ _ (
          omega
            (int_laws, left, right, ap pos_part e, ap neg_part e, ap pos_part e', ap neg_part e')),
    )

pub Aligned-sym : (bit : ℕ) (x y : ℤ) → Aligned bit x y → Aligned bit y x
Aligned-sym bit x y (k, j, e) = (j, k, sym e)

-- A shift of both sides.
Aligned-shift : (bit : ℕ) (x y c : ℤ) → Aligned bit x y → Aligned bit (x +ℤ c) (y +ℤ c)
Aligned-shift bit x y c (k, j, e) =
    (k, j, eq_of_parts _ _ (omega (int_laws, ap pos_part e, ap neg_part e)))

Aligned-down : (bit : ℕ) (x : ℤ) → Aligned bit (x -ℤ pos bit) x
Aligned-down bit x =
    let one : 1 * bit ≡ bit = grind arith in (1, 0, eq_of_parts _ _ (omega (int_laws, one)))

Aligned-up : (bit : ℕ) (x : ℤ) → Aligned bit (x +ℤ pos bit) x
Aligned-up bit x =
    let one : 1 * bit ≡ bit = grind arith in (0, 1, eq_of_parts _ _ (omega (int_laws, one)))

lower-high :
    (fuel bit : ℕ) (d : ℤ)
    → ltb_ℤ (pos bit) (twice d) ≡ true
    → lower (suc fuel) bit d ≡ lower fuel bit (d -ℤ pos bit)
unfolding lower
lower-high fuel bit d h = rw (h, lower) refl

lower-low : (fuel bit : ℕ) (d : ℤ) → ltb_ℤ (pos bit) (twice d) ≡ false → lower (suc fuel) bit d ≡ d
unfolding lower
lower-low fuel bit d h = rw (h, lower) refl

raise-low :
    (fuel bit : ℕ) (d : ℤ)
    → ltb_ℤ (twice d) (pos 0 -ℤ pos bit) ≡ true
    → raise (suc fuel) bit d ≡ raise fuel bit (d +ℤ pos bit)
unfolding raise
raise-low fuel bit d h = rw (h, raise) refl

raise-high :
    (fuel bit : ℕ) (d : ℤ) → ltb_ℤ (twice d) (pos 0 -ℤ pos bit) ≡ false → raise (suc fuel) bit d ≡ d
unfolding raise
raise-high fuel bit d h = rw (h, raise) refl

lower-Aligned : (fuel bit : ℕ) (d : ℤ) → Aligned bit (lower fuel bit d) d
lower-Aligned zero bit d = unfold lower in Aligned-refl bit d
lower-Aligned (suc fuel) bit d = elim (Bool-cases (ltb_ℤ (pos bit) (twice d))) [
  | inl high ↦ rw (lower-high fuel bit d high) (
      Aligned-trans bit (lower fuel bit (d -ℤ pos bit)) (d -ℤ pos bit) d
        (lower-Aligned fuel bit (d -ℤ pos bit)) (Aligned-down bit d))
  | inr low ↦ rw (lower-low fuel bit d low) (Aligned-refl bit d)
]

raise-Aligned : (fuel bit : ℕ) (d : ℤ) → Aligned bit (raise fuel bit d) d
raise-Aligned zero bit d = unfold raise in Aligned-refl bit d
raise-Aligned (suc fuel) bit d = elim (Bool-cases (ltb_ℤ (twice d) (pos 0 -ℤ pos bit))) [
  | inl low ↦ rw (raise-low fuel bit d low) (
      Aligned-trans bit (raise fuel bit (d +ℤ pos bit)) (d +ℤ pos bit) d
        (raise-Aligned fuel bit (d +ℤ pos bit)) (Aligned-up bit d))
  | inr high ↦ rw (raise-high fuel bit d high) (Aligned-refl bit d)
]

abs_parts : (d : ℤ) → abs_ℤ d ≡ pos_part d + neg_part d
abs_parts d = ground arith

one_part : (d : ℤ) → (pos_part d ≡ 0) ⊎ (neg_part d ≡ 0)
one_part (pos n) = inr refl
one_part (negsuc n) = inl refl

lt-of_test : (a b : ℤ) → ltb_ℤ a b ≡ true → a <ℤ b
lt-of_test a b h = ground (arith, h)

le-of_test : (a b : ℤ) → ltb_ℤ a b ≡ false → b ≤ℤ a
le-of_test a b h = ground (arith, h)

-- As many rounds as the difference is large are enough.
lower-le : (fuel bit : ℕ) (d : ℤ) → 1 ≤ bit → abs_ℤ d ≤ fuel → twice (lower fuel bit d) ≤ℤ pos bit
lower-le zero bit d one enough = unfold lower in omega (int_laws, abs_parts d)
lower-le (suc fuel) bit d one enough = elim (Bool-cases (ltb_ℤ (pos bit) (twice d))) [
  | inl high ↦
      let less = lt-of_test (pos bit) (twice d) high in
      rw (lower-high fuel bit d high) (
        lower-le fuel bit (d -ℤ pos bit) one (
          omega (
            int_laws,
            less,
            one_part d,
            one_part (d -ℤ pos bit),
            abs_parts d,
            abs_parts (d -ℤ pos bit),
          )))
  | inr low ↦ rw (lower-low fuel bit d low) (le-of_test (pos bit) (twice d) low)
]

raise-le : (fuel bit : ℕ) (d : ℤ) → twice d ≤ℤ pos bit → twice (raise fuel bit d) ≤ℤ pos bit
raise-le zero bit d h = unfold raise in h
raise-le (suc fuel) bit d h = elim (Bool-cases (ltb_ℤ (twice d) (pos 0 -ℤ pos bit))) [
  | inl low ↦
      let less = lt-of_test (twice d) (pos 0 -ℤ pos bit) low in
      rw (raise-low fuel bit d low) (raise-le fuel bit (d +ℤ pos bit) (omega (int_laws, less)))
  | inr high ↦ rw (raise-high fuel bit d high) h
]

raise-ge :
    (fuel bit : ℕ) (d : ℤ) → 1 ≤ bit → abs_ℤ d ≤ fuel → pos 0 -ℤ pos bit ≤ℤ twice (raise fuel bit d)
raise-ge zero bit d one enough = unfold raise in omega (int_laws, abs_parts d)
raise-ge (suc fuel) bit d one enough = elim (Bool-cases (ltb_ℤ (twice d) (pos 0 -ℤ pos bit))) [
  | inl low ↦
      let less = lt-of_test (twice d) (pos 0 -ℤ pos bit) low in
      rw (raise-low fuel bit d low) (
        raise-ge fuel bit (d +ℤ pos bit) one (
          omega (
            int_laws,
            less,
            one_part d,
            one_part (d +ℤ pos bit),
            abs_parts d,
            abs_parts (d +ℤ pos bit),
          )))
  | inr high ↦ rw (raise-high fuel bit d high) (le-of_test (twice d) (pos 0 -ℤ pos bit) high)
]

-- The two loops end within half a period, at a whole number of periods.
pub settle-IsHalf :
    (bit : ℕ) (d : ℤ) → 1 ≤ bit → IsHalf bit (settle bit d) × Aligned bit (settle bit d) d
unfolding settle
settle-IsHalf bit d one =
    let low = lower (abs_ℤ d) bit d in
    let under = lower-le (abs_ℤ d) bit d one (omega arith) in
    (
      (raise-le (abs_ℤ low) bit low under, raise-ge (abs_ℤ low) bit low one (omega arith)),
      Aligned-trans bit (raise (abs_ℤ low) bit low) low d (raise-Aligned (abs_ℤ low) bit low)
          (lower-Aligned (abs_ℤ d) bit d),
    )
