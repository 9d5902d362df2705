-- ===== src/Incidents/Apart.antt =====
-- scripts/diagnose-logs.py: how far the incidents of the fleet are apart.
use mathlib.Core.List.{Perm}
use mathlib.Core.List.Perm
use esphome_snapcast.Base.{
  ℕ, ◌+◌, ◌≤◌, ◌<◌, ◌≡◌, inl, inr, Bool, true, false, List, [], ◌∷◌, ◌++◌, arith, concat,
  Bool-cases, length,
}
use esphome_snapcast.Incidents.Clusters.{IsGroup, IsFar, AreGroups, cluster-AreGroups}
use esphome_snapcast.Incidents.Events.{insert, sort}
use esphome_snapcast.Incidents.Fleet.{
  DeviceIncident, Plane, cluster_ms, incident_le, max_stop, near_group, fleet_of, isolated_names,
  count_of,
}
use esphome_snapcast.Incidents.Planes.{names_in-pos, AllFilled, shadowed, isolated_names-length}

abbrev pub IsNear : List DeviceIncident → DeviceIncident → Type 0
IsNear group d = d.inc.start ≤ max_stop group + cluster_ms

abbrev pub IsBeyond : List DeviceIncident → DeviceIncident → Type 0
IsBeyond group d = max_stop group + cluster_ms < d.inc.start

-- Every incident of the list starts at the time or behind it.
abbrev AllFrom : ℕ → List DeviceIncident → Type 0
AllFrom t [] = Unit
AllFrom t (d ∷ ds) = (t ≤ d.inc.start) × AllFrom t ds

abbrev IsSorted : List DeviceIncident → Type 0
IsSorted [] = Unit
IsSorted (d ∷ ds) = AllFrom d.inc.start ds × IsSorted ds

AllFrom-weaken : (s t : ℕ) (ds : List DeviceIncident) → s ≤ t → AllFrom t ds → AllFrom s ds
AllFrom-weaken s t [] h all = tt
AllFrom-weaken s t (d ∷ ds) h (a, all) = (omega arith, AllFrom-weaken s t ds h all)

module _ (ties : DeviceIncident → DeviceIncident → Bool) where
  incident_le-start :
      (a b : DeviceIncident) → incident_le ties a b ≡ true → a.inc.start ≤ b.inc.start
  incident_le-start a b h = ground (arith, h)

  incident_le-other :
      (a b : DeviceIncident) → incident_le ties a b ≡ false → b.inc.start ≤ a.inc.start
  incident_le-other a b h = ground (arith, h)

  insert-AllFrom :
      (t : ℕ) (d : DeviceIncident) (ds : List DeviceIncident)
      → t ≤ d.inc.start
      → AllFrom t ds
      → AllFrom t (insert (incident_le ties) d ds)
  insert-AllFrom t d [] h all = (h, tt)
  insert-AllFrom t d (e ∷ ds) h (a, all) = elim (Bool-cases (incident_le ties d e)) [
    | inl before ↦ rw before (h, (a, all))
    | inr behind ↦ rw behind (a, insert-AllFrom t d ds h all)
  ]

  insert-IsSorted :
      (d : DeviceIncident) (ds : List DeviceIncident)
      → IsSorted ds
      → IsSorted (insert (incident_le ties) d ds)
  insert-IsSorted d [] s = (tt, tt)
  insert-IsSorted d (e ∷ ds) (all, s) = elim (Bool-cases (incident_le ties d e)) [
    | inl before ↦
        let le = incident_le-start d e before in
        rw before ((le, AllFrom-weaken d.inc.start e.inc.start ds le all), (all, s))
    | inr behind ↦
        let le = incident_le-other d e behind in
        rw behind (insert-AllFrom e.inc.start d ds le all, insert-IsSorted d ds s)
  ]

  sort-IsSorted : (ds : List DeviceIncident) → IsSorted (sort (incident_le ties) ds)
  unfolding sort
  sort-IsSorted [] = tt
  sort-IsSorted (d ∷ ds) = insert-IsSorted d (sort (incident_le ties) ds) (sort-IsSorted ds)

  insert-perm :
      (d : DeviceIncident) (ds : List DeviceIncident)
      → Perm (insert (incident_le ties) d ds) (d ∷ ds)
  insert-perm d [] = Perm.refl (d ∷ [])
  insert-perm d (e ∷ ds) = elim (Bool-cases (incident_le ties d e)) [
    | inl before ↦ rw before (Perm.refl (d ∷ e ∷ ds))
    | inr behind ↦ rw behind (Perm.trans (Perm.cons e (insert-perm d ds)) (Perm.swap d e ds))
  ]

  sort-perm : (ds : List DeviceIncident) → Perm (sort (incident_le ties) ds) ds
  unfolding sort
  sort-perm [] = Perm.refl []
  sort-perm (d ∷ ds) =
      Perm.trans (insert-perm d (sort (incident_le ties) ds)) (Perm.cons d (sort-perm ds))

-- Every incident of the list starts more than half a minute behind the latest end of the group.
abbrev pub AllBeyond : List DeviceIncident → List DeviceIncident → Type 0
AllBeyond group [] = Unit
AllBeyond group (d ∷ ds) = IsBeyond group d × AllBeyond group ds

-- Each group lies more than half a minute in front of every incident of the groups behind it.
abbrev pub AreSeparate : List (List DeviceIncident) → Type 0
AreSeparate [] = Unit
AreSeparate (group ∷ fleet) = AllBeyond group (concat fleet) × AreSeparate fleet

AllFrom-AllBeyond :
    (group : List DeviceIncident) (t : ℕ) (ds : List DeviceIncident)
    → max_stop group + cluster_ms < t
    → AllFrom t ds
    → AllBeyond group ds
AllFrom-AllBeyond group t [] h all = tt
AllFrom-AllBeyond group t (d ∷ ds) h (a, all) = (omega arith, AllFrom-AllBeyond group t ds h all)

IsSorted-append : (xs ys : List DeviceIncident) → IsSorted (xs ++ ys) → IsSorted ys
IsSorted-append [] ys s = s
IsSorted-append (x ∷ xs) ys (all, s) = IsSorted-append xs ys s

IsFar-AllBeyond :
    (group : List DeviceIncident) (fleet : List (List DeviceIncident))
    → IsFar IsNear IsBeyond group fleet
    → IsSorted (concat fleet)
    → AllBeyond group (concat fleet)
IsFar-AllBeyond group [] far s = tt
IsFar-AllBeyond group ([] ∷ fleet) far s = absurd far
IsFar-AllBeyond group ((d ∷ ds) ∷ fleet) far (all, s) =
    (far, AllFrom-AllBeyond group d.inc.start (ds ++ concat fleet) far all)

AreGroups-AreSeparate :
    (fleet : List (List DeviceIncident))
    → AreGroups IsNear IsBeyond fleet
    → IsSorted (concat fleet)
    → AreSeparate fleet
AreGroups-AreSeparate [] apart s = tt
AreGroups-AreSeparate (group ∷ fleet) (g, far, apart) s =
    let behind = IsSorted-append group (concat fleet) s in
    (IsFar-AllBeyond group fleet far behind, AreGroups-AreSeparate fleet apart behind)

-- Within a group each incident starts at most half a minute behind the latest end so far.
abbrev pub AreChained : List (List DeviceIncident) → Type 0
AreChained [] = Unit
AreChained (group ∷ fleet) = IsGroup IsNear IsBeyond group × AreChained fleet

AreGroups-AreChained :
    (fleet : List (List DeviceIncident)) → AreGroups IsNear IsBeyond fleet → AreChained fleet
AreGroups-AreChained [] apart = tt
AreGroups-AreChained (group ∷ fleet) (g, far, apart) = (g, AreGroups-AreChained fleet apart)

AreChained-AllFilled : (fleet : List (List DeviceIncident)) → AreChained fleet → AllFilled fleet
AreChained-AllFilled [] chained = tt
AreChained-AllFilled ([] ∷ fleet) (g, chained) = absurd g
AreChained-AllFilled ((d ∷ ds) ∷ fleet) (g, chained) =
    (names_in-pos d ds, AreChained-AllFilled fleet chained)

module _ (ties : DeviceIncident → DeviceIncident → Bool) (all_inc : List DeviceIncident) where
  clustered :
      (concat (fleet_of ties all_inc) ≡ sort (incident_le ties) all_inc)
      × AreGroups IsNear IsBeyond (fleet_of ties all_inc)
  unfolding fleet_of
  clustered =
      cluster-AreGroups IsNear IsBeyond near_group (λ g d h. ground (arith, h))
        (λ g d h. ground (arith, h)) (sort (incident_le ties) all_inc)

  -- The incidents of the fleet are groups of the incidents of all devices, none of them lost and none
  -- doubled. Within a group each incident starts at most half a minute behind the latest end among
  -- those before it, and every incident of a later group starts more than half a minute behind every
  -- end in the groups before it.
  pub fleet_of-AreSeparate :
      Perm (concat (fleet_of ties all_inc)) all_inc
      × AreChained (fleet_of ties all_inc)
      × AreSeparate (fleet_of ties all_inc)
  fleet_of-AreSeparate =
      let (joined, apart) = clustered in
      (
        rw joined (sort-perm ties all_inc),
        AreGroups-AreChained (fleet_of ties all_inc) apart,
        AreGroups-AreSeparate (fleet_of ties all_inc) apart
            (rw joined (sort-IsSorted ties all_inc)),
      )

  -- The recommendation for isolated devices counts one name for each incident of the fleet of the
  -- plane DEVICE, and besides one for each incident of a single device that the classification has
  -- put down to an update of the firmware.
  pub isolated_names-shadowed :
      (ota_times : List ℕ)
      → length (isolated_names (fleet_of ties all_inc))
        ≡ count_of ota_times Plane.device (fleet_of ties all_inc)
          + shadowed ota_times (fleet_of ties all_inc)
  isolated_names-shadowed ota_times = isolated_names-length ota_times (fleet_of ties all_inc) (
      AreChained-AllFilled (fleet_of ties all_inc)
        (AreGroups-AreChained (fleet_of ties all_inc) (clustered.1)))
