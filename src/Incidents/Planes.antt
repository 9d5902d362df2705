-- ===== src/Incidents/Planes.antt =====
-- scripts/diagnose-logs.py: what the planes and their counts say of the groups.
use Prim.Native.String.{String}
use esphome_snapcast.Base.{
  ℕ, ◌+◌, ◌≤◌, ◌≡◌, refl, inl, inr, Bool, true, not, ◌&&◌, List, [], ◌∷◌, arith, if◌then◌else◌,
  length, Bool-cases, length-append,
}
use esphome_snapcast.Incidents.Fleet.{
  DeviceIncident, Plane, plane_eq, has_name, names_in, in_shadow, group_start, classify, count_of,
  is_isolated, only_name, isolated_names,
}

has_name-cons :
    (name : String) (names : List String) → has_name name names ≡ true → 1 ≤ length names
has_name-cons name [] h = cc h
has_name-cons name (other ∷ names) h = omega arith

pub names_in-pos :
    (d : DeviceIncident) (group : List DeviceIncident) → 1 ≤ length (names_in (d ∷ group))
unfolding names_in
names_in-pos d group = elim (Bool-cases (has_name d.name (names_in group))) [
  | inl old ↦ rw old (has_name-cons d.name (names_in group) old)
  | inr new ↦ rw new (omega arith)
]

-- The group is counted as an isolated one, and lies in the shadow of an update.
unfoldable pub is_shadowed : List ℕ → List DeviceIncident → Bool
is_shadowed ota_times group = is_isolated group && in_shadow (group_start group) ota_times

unfoldable pub shadowed : List ℕ → List (List DeviceIncident) → ℕ
shadowed ota_times [] = 0
shadowed ota_times (group ∷ fleet) =
    let rest = shadowed ota_times fleet in if is_shadowed ota_times group then rest + 1 else rest

abbrev pub AllFilled : List (List DeviceIncident) → Type 0
AllFilled [] = Unit
AllFilled (group ∷ fleet) = (1 ≤ length (names_in group)) × AllFilled fleet

-- A group of one device and of no other plane is isolated, and the other way round.
classify-device :
    (ota_times : List ℕ) (group : List DeviceIncident)
    → 1 ≤ length (names_in group)
    → plane_eq (classify ota_times group) Plane.device
      ≡ is_isolated group && not (in_shadow (group_start group) ota_times)
unfolding classify is_isolated
classify-device ota_times group h = ground arith

one_name : (names : List String) → length names ≡ 1 → length (only_name names) ≡ 1
one_name [] h = absurd (omega arith)
one_name (name ∷ names) h = refl

isolated-one :
    (group : List DeviceIncident) → is_isolated group ≡ true → length (names_in group) ≡ 1
unfolding is_isolated
isolated-one group h = ground arith

-- The recommendation counts one device for each incident of the plane DEVICE, and besides for each
-- incident of one device that the classification has put down to an update.
pub isolated_names-length :
    (ota_times : List ℕ) (fleet : List (List DeviceIncident))
    → AllFilled fleet
    → length (isolated_names fleet)
      ≡ count_of ota_times Plane.device fleet + shadowed ota_times fleet
unfolding count_of isolated_names shadowed is_shadowed
isolated_names-length ota_times [] h = omega arith
isolated_names-length ota_times (group ∷ fleet) (one, h) =
    let ih = isolated_names-length ota_times fleet h in
    let plane = classify-device ota_times group one in
    elim (Bool-cases (is_isolated group)) [
      | inl alone ↦
          let names = one_name (names_in group) (isolated-one group alone) in
          ground (
            arith,
            ih,
            plane,
            names,
            alone,
            length-append (only_name (names_in group)) (isolated_names fleet),
          )
      | inr many ↦ ground (arith, ih, plane, many)
    ]
