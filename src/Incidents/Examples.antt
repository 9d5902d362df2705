-- ===== src/Incidents/Examples.antt =====
-- scripts/diagnose-logs.py at concrete inputs.
use Prim.Native.String.{String}
use mathlib.Core.List.{Perm}
use esphome_snapcast.Base.{
  ℕ, ◌≡◌, refl, Bool, true, Option, none, some, List, [], ◌∷◌, map, concat, length,
}
use esphome_snapcast.Base.Int.{negsuc}
use esphome_snapcast.Incidents.Clusters.{cluster, cluster_from, AreGroups}
use esphome_snapcast.Incidents.Events.{
  Kind, Detail, Event, Sync, Line, t_of, marker_of, parse_line, parse_lines, sort, parse,
}
use esphome_snapcast.Incidents.Build.{
  has_kind, add_kind, opened, absorb, incidents_from, build_incidents, max_lateness_ms,
}
use esphome_snapcast.Incidents.Summaries.{
  failures, summary, IsSoon, IsLater, build_incidents-summaries,
}
use esphome_snapcast.Incidents.Fleet.{
  DeviceIncident, Plane, fleet_of, names_in, group_has, worst_late, in_shadow, classify, count_of,
  is_isolated, isolated_names,
}
use esphome_snapcast.Incidents.Apart.{AreChained, AreSeparate, fleet_of-AreSeparate}

abbrev keep : {A : Type 0} → A → A → Bool
keep a b = true

abbrev line : String → ℕ → Option (ℕ × Bool) → Option Sync → Line
line text s resync_in sync_in = record {
  text = text;
  stamp = some (record { h = 0; mi = 1; s = s; ms = some 250 });
  resync_in = resync_in;
  sync_in = sync_in;
  rssi_in = none;
}

abbrev lines : List Line
lines =
    line "Sync locked" 40 none none
    ∷ line "Hard resync: 120 ms late" 5 (some (120, true)) none
    ∷ line "re-baselining playout, refusing audio" 3 none (
        some (record {
          median = negsuc 4;
          drop = 0;
          ins = 0;
          resyncs = 1;
          buf = 399;
          pipe = some (negsuc 0);
        }))
    ∷ []

abbrev event : ℕ → Kind → Detail → Event
event t k d = record { t = t; kind = k; detail = d }

abbrev events : List Event
events =
    event 63_250 Kind.starve Detail.no_detail
    ∷ event 63_250 Kind.ring_low (Detail.buffered 399)
    ∷ event 63_250 Kind.pipeline_neg (Detail.pipeline (negsuc 0))
    ∷ event 65_250 Kind.resync (Detail.lateness 120 true)
    ∷ event 100_250 Kind.lock Detail.no_detail
    ∷ []

parsed : (parse keep lines).events ≡ events
unfolding parse parse_lines parse_line t_of marker_of sort
parsed = refl

one_incident :
    build_incidents events
    ≡ (record {
      start = 63_250;
      stop = 65_250;
      kinds = Kind.starve ∷ Kind.ring_low ∷ Kind.pipeline_neg ∷ Kind.resync ∷ [];
      details = Detail.buffered 399 ∷ Detail.pipeline (negsuc 0) ∷ Detail.lateness 120 true ∷ [];
    })
      ∷ []
unfolding build_incidents incidents_from opened absorb add_kind has_kind
one_incident = refl

build_incidents-summaries_example :
    (groups : List (List Event)) × (build_incidents events ≡ map summary groups)
    × (concat groups ≡ failures events)
    × AreGroups IsSoon IsLater groups
build_incidents-summaries_example = build_incidents-summaries events

abbrev starved_at : String → ℕ → ℕ → DeviceIncident
starved_at name start stop = record {
  name = name;
  inc = record { start = start; stop = stop; kinds = Kind.starve ∷ []; details = [] };
}

-- Two boards stall within half a minute, and much later one of them does, behind an update.
abbrev stalls : List DeviceIncident
stalls =
    starved_at "a" 1_000_000 1_001_000
    ∷ starved_at "a" 100_000 101_000
    ∷ starved_at "b" 120_000 130_000
    ∷ []

fleet_of-AreSeparate_example :
    Perm (concat (fleet_of keep stalls)) stalls
    × AreChained (fleet_of keep stalls)
    × AreSeparate (fleet_of keep stalls)
fleet_of-AreSeparate_example = fleet_of-AreSeparate keep stalls

-- Nothing is of the plane DEVICE, and yet a device is blamed once.
blamed :
    ◌≡◌ {A = ℕ × ℕ × List String}
      (
        length (fleet_of keep stalls),
        count_of (990_000 ∷ []) Plane.device (fleet_of keep stalls),
        isolated_names (fleet_of keep stalls),
      )
      (2, 0, "a" ∷ [])
unfolding fleet_of cluster cluster_from sort count_of classify isolated_names is_isolated names_in
    group_has has_kind worst_late in_shadow max_lateness_ms
blamed = refl
