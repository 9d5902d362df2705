-- ===== src/DinSkew/Interpolated.antt =====
-- scripts/din-skew.py: the times that `edge_times` gives to the transitions.
use esphome_snapcast.Base.{ℕ, suc, ◌≡◌, ◌⊎◌, Bool, true, false, some, List, [], ◌∷◌, get_elem?}
use esphome_snapcast.Base.Int.{pos}
use esphome_snapcast.Base.Float.{Float}
use esphome_snapcast.DinSkew.Straddled.{IsCrossing}

-- The lists have one length, and `R` holds between what stands at the same place.
abbrev pub Pairwise : {A B : Type 0} → (A → B → Type 0) → List A → List B → Type 0
Pairwise R [] [] = Unit
Pairwise R (x ∷ xs) (y ∷ ys) = R x y × Pairwise R xs ys
Pairwise R _ _ = ⊥

module _ (fl : Float) where
  open fl use {F, of_int, add, sub, div, lt, eq}

  -- Where the straight line from `a` to `b` is at the middle, as a share of a sample; the half if it is
  -- level.
  abbrev pub IsShare : F → F → F → F → Type 0
  IsShare mid a b q =
      ((eq b a ≡ true) × (q ≡ div (of_int (pos 1)) (of_int (pos 2))))
      ⊎ ((eq b a ≡ false) × (q ≡ div (sub mid a) (sub b a)))

  -- `s` is `q`, or the end of the unit interval that `q` is beyond.
  abbrev pub IsClamped : F → F → Type 0
  IsClamped q s =
      ((lt q (of_int (pos 0)) ≡ true) × (s ≡ of_int (pos 0)))
      ⊎ (((lt q (of_int (pos 0)) ≡ false) × (lt (of_int (pos 1)) q ≡ true) × (s ≡ of_int (pos 1)))
          ⊎ ((lt q (of_int (pos 0)) ≡ false) × (lt (of_int (pos 1)) q ≡ false) × (s ≡ q)))

  -- The time `t` for the transition `f`, in samples.
  abbrev pub IsTimed : F → List F → ℕ × Bool → F → Type 0
  IsTimed mid xs f t =
      (j : ℕ) × (a : F) × (b : F) × (q : F) × (s : F) × IsCrossing fl mid xs f j
      × (get_elem? xs j ≡ some a)
      × (get_elem? xs (suc j) ≡ some b)
      × IsShare mid a b q
      × IsClamped q s
      × (t ≡ add (of_int (pos j)) s)
