-- ===== src/DinSkew/Unwrapped.antt =====
-- scripts/din-skew.py: what `unwrap_bitphase` recovers.
use esphome_snapcast.Base.{
  ℕ, suc, ◌+◌, ◌*◌, ◌≤◌, ◌<◌, ◌≡◌, refl, ap, inl, inr, some, List, [], ◌∷◌, arith, map, le_or_lt,
}
use mathlib.Core.Path.{ap₂}
use esphome_snapcast.Base.Int.{ℤ, pos, pos_part, neg_part, ◌+ℤ◌, ◌-ℤ◌, ◌<ℤ◌, eq_of_parts, int_laws}
use esphome_snapcast.DinSkew.BitPhase.{twice, settle, unwrapped, unwrap_from, unwrap_bitphase}
use esphome_snapcast.DinSkew.Periods.{Aligned, Aligned-refl, Aligned-trans, settle-IsHalf}

Aligned-add :
    (bit : ℕ) (x y x' y' : ℤ)
    → Aligned bit x y
    → Aligned bit x' y'
    → Aligned bit (x +ℤ x') (y +ℤ y')
Aligned-add bit x y x' y' (k, j, e) (k', j', e') =
    let left : (k + k') * bit ≡ k * bit + k' * bit = grind arith in
    let right : (j + j') * bit ≡ j * bit + j' * bit = grind arith in
    (
      k + k',
      j + j',
      eq_of_parts _ _ (
          omega
            (int_laws, left, right, ap pos_part e, ap neg_part e, ap pos_part e', ap neg_part e')),
    )

Aligned-sub :
    (bit : ℕ) (x y x' y' : ℤ)
    → Aligned bit x y
    → Aligned bit x' y'
    → Aligned bit (x -ℤ x') (y -ℤ y')
Aligned-sub bit x y x' y' (k, j, e) (k', j', e') =
    let left : (k + j') * bit ≡ k * bit + j' * bit = grind arith in
    let right : (j + k') * bit ≡ j * bit + k' * bit = grind arith in
    (
      k + j',
      j + k',
      eq_of_parts _ _ (
          omega
            (int_laws, left, right, ap pos_part e, ap neg_part e, ap pos_part e', ap neg_part e')),
    )

-- A whole period more on one side is at least a period.
period-le : (bit k j : ℕ) → k < j → k * bit + bit ≤ j * bit
period-le bit k j h = grind arith

-- Two aligned numbers less than a period apart are one.
Aligned-eq : (bit : ℕ) (x y : ℤ) → Aligned bit x y → x <ℤ y +ℤ pos bit → y <ℤ x +ℤ pos bit → x ≡ y
Aligned-eq bit x y (k, j, e) h h' = elim (le_or_lt k j) [
  | inl le ↦ elim (le_or_lt j k) [
    | inl ge ↦
        let same : k * bit ≡ j * bit = ap (λ (n : ℕ). n * bit) (omega arith) in
        eq_of_parts _ _ (omega (int_laws, same, ap pos_part e, ap neg_part e))
    | inr lt ↦ absurd (omega (int_laws, period-le bit k j lt, ap pos_part e, ap neg_part e))
  ]
  | inr lt ↦ absurd (omega (int_laws, period-le bit j k lt, ap pos_part e, ap neg_part e))
]

-- Less than half a period between neighbours.
abbrev pub IsSlow : ℕ → ℤ → List ℤ → Type 0
IsSlow bit prev [] = Unit
IsSlow bit prev (s ∷ ss) =
    (twice (s -ℤ prev) <ℤ pos bit) × (pos 0 -ℤ pos bit <ℤ twice (s -ℤ prev)) × IsSlow bit s ss

-- Each value is the skew, up to whole periods.
abbrev pub Folds : ℕ → List ℤ → List ℤ → Type 0
Folds bit [] [] = Unit
Folds bit (v ∷ vs) (s ∷ ss) = Aligned bit v s × Folds bit vs ss
Folds bit _ _ = ⊥

unwrapped-eq :
    (b : ℕ) (c prev offset v s : ℤ)
    → Aligned (suc b) offset c
    → Aligned (suc b) v s
    → twice (s -ℤ prev) <ℤ pos (suc b)
    → pos 0 -ℤ pos (suc b) <ℤ twice (s -ℤ prev)
    → unwrapped (some (suc b)) (some (prev +ℤ c)) offset v ≡ s +ℤ c
unfolding unwrapped
unwrapped-eq b c prev offset v s off val up down =
    let bit = suc b in
    let d = (v +ℤ offset) -ℤ (prev +ℤ c) in
    let ((high, low), same) = settle-IsHalf bit d (omega arith) in
    let back : (prev +ℤ c) +ℤ d ≡ v +ℤ offset = eq_of_parts _ _ (omega int_laws) in
    let moved : Aligned bit ((prev +ℤ c) +ℤ settle bit d) ((prev +ℤ c) +ℤ d) =
      Aligned-add bit (prev +ℤ c) (prev +ℤ c) (settle bit d) d (Aligned-refl bit (prev +ℤ c))
        same in
    let target : Aligned bit ((prev +ℤ c) +ℤ d) (s +ℤ c) =
      rw back (Aligned-add bit v s offset c val off) in
    Aligned-eq bit ((prev +ℤ c) +ℤ settle bit d) (s +ℤ c)
      (Aligned-trans bit ((prev +ℤ c) +ℤ settle bit d) ((prev +ℤ c) +ℤ d) (s +ℤ c) moved target)
      (omega (int_laws, high, low, up, down)) (omega (int_laws, high, low, up, down))

next-Aligned : (bit : ℕ) (v s c : ℤ) → Aligned bit v s → Aligned bit ((s +ℤ c) -ℤ v) c
next-Aligned bit v s c (k, j, e) =
    (j, k, eq_of_parts _ _ (omega (int_laws, ap pos_part e, ap neg_part e)))

unwrap_from-eq :
    (b : ℕ) (c prev offset : ℤ) (vs ss : List ℤ)
    → Aligned (suc b) offset c
    → Folds (suc b) vs ss
    → IsSlow (suc b) prev ss
    → unwrap_from (some (suc b)) (some (prev +ℤ c)) offset (map (λ v. some v) vs)
      ≡ map (λ s. some (s +ℤ c)) ss
unfolding unwrap_from
unwrap_from-eq b c prev offset [] [] off folds slow = refl
unwrap_from-eq b c prev offset [] (s ∷ ss) off folds slow = absurd folds
unwrap_from-eq b c prev offset (v ∷ vs) [] off folds slow = absurd folds
unwrap_from-eq b c prev offset (v ∷ vs) (s ∷ ss) off (val, folds) (up, down, slow) =
    let out = unwrapped-eq b c prev offset v s off val up down in
    let next : Aligned (suc b) ((s +ℤ c) -ℤ v) c = next-Aligned (suc b) v s c val in
    rw out
      (ap (λ r. some (s +ℤ c) ∷ r) (unwrap_from-eq b c s ((s +ℤ c) -ℤ v) vs ss next folds slow))

-- A series that moves less than half a bit period from one capture to the next is recovered from its
-- values up to whole periods, with one constant added to all: what the first value is away from it.
pub unwrap_bitphase-recovers :
    (b : ℕ) (v s : ℤ) (vs ss : List ℤ)
    → Folds (suc b) (v ∷ vs) (s ∷ ss)
    → IsSlow (suc b) s ss
    → unwrap_bitphase (map (λ x. some x) (v ∷ vs)) (some (suc b))
      ≡ map (λ x. some (x +ℤ (v -ℤ s))) (s ∷ ss)
unfolding unwrap_bitphase unwrapped
unwrap_bitphase-recovers b v s vs ss (val, folds) slow =
    let c = v -ℤ s in
    let first : v +ℤ pos 0 ≡ s +ℤ c = eq_of_parts _ _ (omega int_laws) in
    ap₂ ◌∷◌ (ap (λ x. some x) first) (
      rw first
        (unwrap_from-eq b c s ((s +ℤ c) -ℤ v) vs ss (next-Aligned (suc b) v s c val) folds slow))
