-- ===== src/DinSkew/BitPhase.antt =====
-- scripts/din-skew.py: `unwrap_bitphase` and `bitphase_alias_ok`. A skew is an integer in some unit of
-- time, `none` where the code has NaN; half a bit period is compared by doubling the other side.
use esphome_snapcast.Base.{ℕ, zero, suc, true, false, Option, none, some, List, [], ◌∷◌}
use esphome_snapcast.Base.Int.{ℤ, pos, ◌+ℤ◌, ◌-ℤ◌, ltb_ℤ, abs_ℤ}

abbrev pub twice : ℤ → ℤ
twice d = d +ℤ d

-- `while v + offset - prev > bit_ns / 2`, on the difference to `prev`; the fuel is its size.
unfoldable pub lower : ℕ → ℕ → ℤ → ℤ
lower zero bit d = d
lower (suc fuel) bit d = elim (ltb_ℤ (pos bit) (twice d)) [
  | true ↦ lower fuel bit (d -ℤ pos bit)
  | false ↦ d
]

-- `while v + offset - prev < -bit_ns / 2`
unfoldable pub raise : ℕ → ℕ → ℤ → ℤ
raise zero bit d = d
raise (suc fuel) bit d = elim (ltb_ℤ (twice d) (pos 0 -ℤ pos bit)) [
  | true ↦ raise fuel bit (d +ℤ pos bit)
  | false ↦ d
]

-- Both loops: what `v + offset - prev` is behind them.
unfoldable pub settle : ℕ → ℤ → ℤ
settle bit d = let d' = lower (abs_ℤ d) bit d in raise (abs_ℤ d') bit d'

-- What one finite value appends, and the offset behind it.
unfoldable pub unwrapped : Option ℕ → Option ℤ → ℤ → ℤ → ℤ
unfolding settle
unwrapped none prev offset v = v +ℤ offset
unwrapped (some zero) prev offset v = v +ℤ offset
unwrapped (some (suc b)) none offset v = v +ℤ offset
unwrapped (some (suc b)) (some prev) offset v = prev +ℤ settle (suc b) ((v +ℤ offset) -ℤ prev)

unfoldable pub unwrap_from : Option ℕ → Option ℤ → ℤ → List (Option ℤ) → List (Option ℤ)
unwrap_from bit prev offset [] = []
unwrap_from bit prev offset (none ∷ dts) = none ∷ unwrap_from bit prev offset dts
unwrap_from bit prev offset (some v ∷ dts) =
    let out = unwrapped bit prev offset v in some out ∷ unwrap_from bit (some out) (out -ℤ v) dts

-- `unwrap_bitphase`
unfoldable pub unwrap_bitphase : List (Option ℤ) → Option ℕ → List (Option ℤ)
unfolding unwrap_from
unwrap_bitphase dts bit = unwrap_from bit none (pos 0) dts
