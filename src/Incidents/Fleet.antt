-- ===== src/Incidents/Fleet.antt =====
-- scripts/diagnose-logs.py: `main`, from the incidents of each device to those of the fleet, their
-- planes and what the recommendations count.
use Prim.Native.String.{String}
use text.Mathlib.Text.{◌==◌ as str_eq}
use esphome_snapcast.Base.{
  ℕ, ◌+◌, ◌-◌, Bool, true, false, not, ◌&&◌, ◌||◌, List, [], ◌∷◌, ◌++◌, leb, ltb, ◌==◌, max, min,
  if◌then◌else◌, length,
}
use esphome_snapcast.Incidents.Clusters.{cluster}
use esphome_snapcast.Incidents.Events.{Kind, Event, sort}
use esphome_snapcast.Incidents.Build.{Incident, has_kind, kind_eq, max_lateness_ms}

-- (start, end, name, kinds, details)
pub record DeviceIncident : Type 0 where
  pub name : String
  pub inc : Incident

abbrev pub cluster_ms : ℕ
cluster_ms = 30_000

abbrev pub simultaneous_ms : ℕ
simultaneous_ms = 4_000

abbrev pub ota_shadow_ms : ℕ
ota_shadow_ms = 90_000

abbrev pub upstream_freeze_ms : ℕ
upstream_freeze_ms = 1_000

-- The order of `sorted` on the tuples: by start, then by end; `ties` compares the rest.
abbrev pub incident_le :
    (DeviceIncident → DeviceIncident → Bool) → DeviceIncident → DeviceIncident → Bool
incident_le ties a b =
    if ltb a.inc.start b.inc.start
    then true
    else if ltb b.inc.start a.inc.start
    then false
    else if ltb a.inc.stop b.inc.stop
    then true
    else if ltb b.inc.stop a.inc.stop
    then false
    else ties a b

-- `max(e[1] for e in group)`
abbrev pub max_stop : List DeviceIncident → ℕ
max_stop [] = 0
max_stop (d ∷ group) = max d.inc.stop (max_stop group)

-- `min(g[0] for g in group)`, with the first to begin with
abbrev pub min_start : ℕ → List DeviceIncident → ℕ
min_start t [] = t
min_start t (d ∷ group) = min_start (min t d.inc.start) group

abbrev pub near_group : List DeviceIncident → DeviceIncident → Bool
near_group group d = leb d.inc.start (max_stop group + cluster_ms)

-- `fleet`, of the incidents of all devices
unfoldable pub fleet_of :
    (DeviceIncident → DeviceIncident → Bool) → List DeviceIncident → List (List DeviceIncident)
fleet_of ties all_inc = cluster near_group (sort (incident_le ties) all_inc)

abbrev pub has_name : String → List String → Bool
has_name name [] = false
has_name name (other ∷ names) = if str_eq other name then true else has_name name names

-- `sorted({g[2] for g in group})`, up to the order
unfoldable pub names_in : List DeviceIncident → List String
names_in [] = []
names_in (d ∷ group) =
    let rest = names_in group in if has_name d.name rest then rest else d.name ∷ rest

-- `kind in kinds` of a group, whose kinds are the union of those of its incidents
unfoldable pub group_has : Kind → List DeviceIncident → Bool
group_has k [] = false
group_has k (d ∷ group) = has_kind k d.inc.kinds || group_has k group

unfoldable pub worst_late : List DeviceIncident → ℕ
worst_late [] = 0
worst_late (d ∷ group) = max (max_lateness_ms d.inc.details) (worst_late group)

abbrev pub group_start : List DeviceIncident → ℕ
group_start [] = 0
group_start (d ∷ group) = min_start d.inc.start group

-- `any(0 <= t0 - ot <= OTA_SHADOW_S for ot in ota_times)`
unfoldable pub in_shadow : ℕ → List ℕ → Bool
in_shadow t0 [] = false
in_shadow t0 (ot ∷ ota_times) = (leb ot t0 && leb t0 (ot + ota_shadow_ms)) || in_shadow t0 ota_times

-- The first word of each class, by which the incidents are counted.
pub data Plane : Type 0 where
  wedge accounting ota upstream congestion device : Plane

abbrev pub spread_of : List DeviceIncident → ℕ
spread_of group = max_stop group - group_start group

-- The classification, most specific first
unfoldable pub classify : List ℕ → List DeviceIncident → Plane
unfolding names_in group_has worst_late in_shadow
classify ota_times group =
    let several = leb 2 (length (names_in group)) in
    let dropped = group_has Kind.reconnect group || group_has Kind.stream_idle group in
    if group_has Kind.wedge group
    then wedge
    else if group_has Kind.pipeline_neg group
    then accounting
    else if in_shadow (group_start group) ota_times
    then ota
    else if several && dropped && leb (spread_of group) simultaneous_ms
    then upstream
    else if several && leb upstream_freeze_ms (worst_late group)
    then upstream
    else if several
    then congestion
    else device

abbrev pub plane_number : Plane → ℕ
plane_number wedge = 0
plane_number accounting = 1
plane_number ota = 2
plane_number upstream = 3
plane_number congestion = 4
plane_number device = 5

abbrev pub plane_eq : Plane → Plane → Bool
plane_eq a b = plane_number a == plane_number b

-- `counts[plane]`
unfoldable pub count_of : List ℕ → Plane → List (List DeviceIncident) → ℕ
count_of ota_times plane [] = 0
count_of ota_times plane (group ∷ fleet) =
    let rest = count_of ota_times plane fleet in
    if plane_eq (classify ota_times group) plane then rest + 1 else rest

-- The groups that the recommendation for isolated devices counts.
unfoldable pub is_isolated : List DeviceIncident → Bool
unfolding names_in group_has
is_isolated group =
    (length (names_in group) == 1)
    && not (group_has Kind.wedge group)
    && not (group_has Kind.pipeline_neg group)

abbrev pub only_name : List String → List String
only_name [] = []
only_name (name ∷ names) = name ∷ []

-- The names that `dev_names` counts, each as often as it is counted.
unfoldable pub isolated_names : List (List DeviceIncident) → List String
unfolding is_isolated names_in
isolated_names [] = []
isolated_names (group ∷ fleet) =
    let rest = isolated_names fleet in
    if is_isolated group then only_name (names_in group) ++ rest else rest

abbrev pub times_of : Kind → List Event → List ℕ
times_of kind [] = []
times_of kind (e ∷ events) =
    let rest = times_of kind events in if kind_eq e.kind kind then e.t ∷ rest else rest
