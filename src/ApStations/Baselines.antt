-- ===== src/ApStations/Baselines.antt =====
-- scripts/ap-stations.py: which station of the first sample `before` has for an address.
use mathlib.Core.Path.{subst}
use esphome_snapcast.Base.{
  ◌≡◌, ◌↔◌, refl, ◌∙◌, ap, inl, inr, true, false, Option, none, some, List, [], ◌∷◌, ◌++◌, ◌==◌,
  ==_iff, Bool-cases, if◌then◌else◌,
}
use esphome_snapcast.ApStations.Elements.{Address, StaRow}
use esphome_snapcast.ApStations.Traffic.{same_address, baseline}

pub same_address_iff : (xs ys : Address) → (same_address xs ys ≡ true) ↔ (xs ≡ ys)
same_address_iff [] [] = (λ h. refl, λ h. refl)
same_address_iff [] (y ∷ ys) = (λ h. cc h, λ h. cc h)
same_address_iff (x ∷ xs) [] = (λ h. cc h, λ h. cc h)
same_address_iff (x ∷ xs) (y ∷ ys) =
    let heads = ==_iff x y in
    let tails = same_address_iff xs ys in
    elim (Bool-cases (x == y)) [
      | inl same ↦
          rw same
            (λ h. let ex = heads.0 same in let et = tails.0 h in cc (ex, et), λ h. tails.1 (cc h))
      | inr other ↦ rw other (λ h. cc h, λ h. let e : x ≡ y = cc h in cc (other, heads.1 e))
    ]

-- No station has the address.
abbrev pub NoneOf : {F : Type 0} → Address → List (StaRow F) → Type 0
NoneOf mac [] = Unit
NoneOf mac (s ∷ ss) = (same_address s.mac mac ≡ false) × NoneOf mac ss

-- The last of the stations with the address.
abbrev pub IsBaseline : {F : Type 0} → Address → StaRow F → List (StaRow F) → Type 0
IsBaseline {F} mac b before =
    (front : List (StaRow F)) × (back : List (StaRow F)) × (before ≡ front ++ b ∷ back)
    × (b.mac ≡ mac)
    × NoneOf mac back

module _ {F : Type 0} (mac : Address) where
  -- What the dict says of the address, on both branches.
  abbrev Finds : List (StaRow F) → Option (StaRow F) → Type 0
  Finds before none = NoneOf mac before
  Finds before (some b) = IsBaseline mac b before

  Finds-here :
      (s : StaRow F) (before : List (StaRow F))
      → NoneOf mac before
      → Finds (s ∷ before) (if same_address s.mac mac then some s else none)
  Finds-here s before later = elim (Bool-cases (same_address s.mac mac)) [
    | inl same ↦ rw same ([], before, refl, (same_address_iff s.mac mac).0 same, later)
    | inr other ↦ rw other (other, later)
  ]

  Finds-cons :
      (s : StaRow F) (before : List (StaRow F)) (o : Option (StaRow F))
      → Finds before o
      → Finds
          (s ∷ before)
          (elim o [ some b ↦ some b | none ↦ if same_address s.mac mac then some s else none ])
  Finds-cons s before none h = Finds-here s before h
  Finds-cons s before (some b) (front, back, e, same, last) =
      (s ∷ front, back, ap (λ l. s ∷ l) e, same, last)

  baseline-Finds : (before : List (StaRow F)) → Finds before (baseline mac before)
  unfolding baseline
  baseline-Finds [] = tt
  baseline-Finds (s ∷ before) = Finds-cons s before (baseline mac before) (baseline-Finds before)

  baseline-none : (before : List (StaRow F)) → NoneOf mac before → baseline mac before ≡ none
  unfolding baseline
  baseline-none [] h = refl
  baseline-none (s ∷ before) (other, h) = rw (baseline-none before h, other) refl

  baseline-last :
      (front : List (StaRow F)) (b : StaRow F) (back : List (StaRow F))
      → b.mac ≡ mac
      → NoneOf mac back
      → baseline mac (front ++ b ∷ back) ≡ some b
  unfolding baseline
  baseline-last [] b back same last =
      rw (baseline-none back last, (same_address_iff b.mac mac).1 same) refl
  baseline-last (s ∷ front) b back same last = rw (baseline-last front b back same last) refl

  pub baseline_iff :
      (b : StaRow F) (before : List (StaRow F))
      → (baseline mac before ≡ some b) ↔ IsBaseline mac b before
  baseline_iff b before = (
    λ e. subst (Finds before) e (baseline-Finds before),
    λ (front, back, e, same, last). ap (baseline mac) e ∙ baseline-last front b back same last,
  )
