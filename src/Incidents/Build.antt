-- ===== src/Incidents/Build.antt =====
-- scripts/diagnose-logs.py: `build_incidents` and `max_lateness_ms`. A set of kinds is a list
-- without repetitions.
use esphome_snapcast.Base.{
  ℕ, ◌+◌, Bool, true, false, ◌||◌, List, [], ◌∷◌, ◌++◌, leb, ◌==◌, max, if◌then◌else◌,
}
use esphome_snapcast.Incidents.Events.{Kind, Detail, Event}

abbrev pub kind_number : Kind → ℕ
kind_number Kind.starve = 0
kind_number Kind.wedge = 1
kind_number Kind.reconnect = 2
kind_number Kind.stream_idle = 3
kind_number Kind.ota_start = 4
kind_number Kind.ota_done = 5
kind_number Kind.tsf_lead = 6
kind_number Kind.tsf_yield = 7
kind_number Kind.tsf_reanchor = 8
kind_number Kind.lock = 9
kind_number Kind.resync = 10
kind_number Kind.ring_low = 11
kind_number Kind.pipeline_neg = 12

abbrev pub kind_eq : Kind → Kind → Bool
kind_eq j k = kind_number j == kind_number k

-- `kind in kinds`
unfoldable pub has_kind : Kind → List Kind → Bool
has_kind k [] = false
has_kind k (j ∷ kinds) = kind_eq k j || has_kind k kinds

-- `kinds.add(kind)`
unfoldable pub add_kind : Kind → List Kind → List Kind
add_kind k kinds = if has_kind k kinds then kinds else kinds ++ k ∷ []

-- (t_start, t_end, kinds, details)
pub record Incident : Type 0 where
  pub start : ℕ
  pub stop : ℕ
  pub kinds : List Kind
  pub details : List Detail

-- `kind in ("lock", "tsf_lead", "tsf_yield", "ota_done")`
abbrev pub is_context : Kind → Bool
is_context Kind.lock = true
is_context Kind.tsf_lead = true
is_context Kind.tsf_yield = true
is_context Kind.ota_done = true
is_context _ = false

abbrev pub incident_gap_ms : ℕ
incident_gap_ms = 12_000

-- `[detail] if detail else []`
abbrev pub detail_list : Detail → List Detail
detail_list Detail.no_detail = []
detail_list d = d ∷ []

unfoldable pub opened : Event → Incident
opened e = record { start = e.t; stop = e.t; kinds = e.kind ∷ []; details = detail_list e.detail }

unfoldable pub absorb : Incident → Event → Incident
unfolding add_kind
absorb inc e = record inc {
  stop = e.t;
  kinds = add_kind e.kind inc.kinds;
  details = inc.details ++ detail_list e.detail;
}

abbrev pub continues : Incident → Event → Bool
continues inc e = leb e.t (inc.stop + incident_gap_ms)

-- The rest of the loop, with the last incident in hand.
unfoldable pub incidents_from : Incident → List Event → List Incident
unfolding absorb opened
incidents_from inc [] = inc ∷ []
incidents_from inc (e ∷ events) =
    let skip = is_context e.kind in
    let joins = continues inc e in
    let rest =
      incidents_from (if skip then inc else if joins then absorb inc e else opened e) events in
    if skip then rest else if joins then rest else inc ∷ rest

unfoldable pub build_incidents : List Event → List Incident
unfolding incidents_from opened
build_incidents [] = []
build_incidents (e ∷ events) =
    let rest = build_incidents events in
    if is_context e.kind then rest else incidents_from (opened e) events

-- The number of a text "(\d+)ms late"
abbrev pub lateness_of : Detail → ℕ
lateness_of (Detail.lateness ms true) = ms
lateness_of _ = 0

unfoldable pub max_lateness_ms : List Detail → ℕ
max_lateness_ms [] = 0
max_lateness_ms (d ∷ details) = max (lateness_of d) (max_lateness_ms details)
