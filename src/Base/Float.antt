-- ===== src/Base/Float.antt =====
-- Python's floats, as the arithmetic that the code calls. Nothing is assumed of it: rounding,
-- infinities and NaN are all allowed, and what is proved with it holds for any of them.
use esphome_snapcast.Base.{Bool}
use esphome_snapcast.Base.Int.{ℤ, pos, ◌+ℤ◌, ◌-ℤ◌, ◌*ℤ◌, abs_ℤ, ltb_ℤ, leb_ℤ, eqb_ℤ}

pub record Float : Type 1 where
  pub F : Type 0
  pub of_int : ℤ → F
  pub add : F → F → F
  pub sub : F → F → F
  pub mul : F → F → F
  pub div : F → F → F
  -- `x ** 0.5`
  pub sqrt : F → F
  pub abs : F → F
  pub lt : F → F → Bool
  pub le : F → F → Bool
  pub eq : F → F → Bool

-- An arithmetic on integers in the place of floats, for tests.
abbrev pub whole : Float
whole = record {
  F = ℤ;
  of_int = λ a. a;
  add = λ a b. a +ℤ b;
  sub = λ a b. a -ℤ b;
  mul = λ a b. a *ℤ b;
  div = λ a b. a;
  sqrt = λ a. a;
  abs = λ a. pos (abs_ℤ a);
  lt = ltb_ℤ;
  le = leb_ℤ;
  eq = eqb_ℤ;
}
