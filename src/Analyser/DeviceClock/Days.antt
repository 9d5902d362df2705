-- ===== src/Analyser/DeviceClock/Days.antt =====
-- scripts/i2s-skew.py: `tod_to_unix` chooses the nearest of the three days.
use esphome_snapcast.Base.{◌≤◌, ◌≡◌, refl, ◌∙◌, ◌⊎◌, inl, inr, arith, ltb, Bool-cases}
use esphome_snapcast.Base.Int.{ℤ, pos, ◌+ℤ◌, ◌-ℤ◌, dist_ℤ}
use esphome_snapcast.Analyser.DeviceClock.Place.{day, nearer, tod_to_unix}

nearer-le :
    (ref best cand : ℤ)
    → (dist_ℤ (nearer ref best cand) ref ≤ dist_ℤ best ref)
      × (dist_ℤ (nearer ref best cand) ref ≤ dist_ℤ cand ref)
      × ((nearer ref best cand ≡ best) ⊎ (nearer ref best cand ≡ cand))
nearer-le ref best cand = elim (Bool-cases (ltb (dist_ℤ cand ref) (dist_ℤ best ref))) [
  | inl won ↦ rw won (ground arith, omega arith, inr refl)
  | inr lost ↦ rw lost (omega arith, ground arith, inl refl)
]

-- The time of day is placed on the day before, the day of the reference or the day behind it, and on
-- neither of the other two would it be closer to the reference.
pub tod_to_unix_lem :
    (midnight ref tod : ℤ)
    → let today = midnight +ℤ tod in
      let placed = tod_to_unix midnight ref tod in
      ((placed ≡ today -ℤ pos day) ⊎ (placed ≡ today) ⊎ (placed ≡ today +ℤ pos day))
      × (dist_ℤ placed ref ≤ dist_ℤ (today -ℤ pos day) ref)
      × (dist_ℤ placed ref ≤ dist_ℤ today ref)
      × (dist_ℤ placed ref ≤ dist_ℤ (today +ℤ pos day) ref)
unfolding tod_to_unix
tod_to_unix_lem midnight ref tod =
    let today = midnight +ℤ tod in
    let (a1, b1, which1) = nearer-le ref (today -ℤ pos day) today in
    let (a2, b2, which2) = nearer-le ref (nearer ref (today -ℤ pos day) today) (today +ℤ pos day) in
    (
      elim which2 [
        | inl kept ↦ elim which1 [ inl v ↦ inl (kept ∙ v) | inr v ↦ inr (inl (kept ∙ v)) ]
        | inr moved ↦ inr (inr moved)
      ],
      omega (arith, a1, a2),
      omega (arith, a2, b1),
      b2,
    )
