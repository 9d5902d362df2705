-- ===== src/Incidents/Summaries.antt =====
-- scripts/diagnose-logs.py: the incidents are summaries of groups of the events that are failures.
use esphome_snapcast.Base.{
  ℕ, ◌+◌, ◌≤◌, ◌<◌, ◌≡◌, refl, ◌∙◌, ap, sym, inl, inr, Bool, true, false, List, [], ◌∷◌, ◌++◌, map,
  arith, leb, if◌then◌else◌, concat, Bool-cases,
}
use esphome_snapcast.Incidents.Clusters.{
  cluster_from, cluster, cluster_from-join, cluster_from-cut, AreGroups, cluster-AreGroups,
}
use esphome_snapcast.Incidents.Events.{Event}
use esphome_snapcast.Incidents.Build.{
  Incident, is_context, incident_gap_ms, opened, absorb, continues, incidents_from, build_incidents,
}

-- The events that are no context.
unfoldable pub failures : List Event → List Event
failures [] = []
failures (e ∷ events) = let rest = failures events in if is_context e.kind then rest else e ∷ rest

abbrev pub absorb_all : Incident → List Event → Incident
absorb_all inc [] = inc
absorb_all inc (e ∷ events) = absorb_all (absorb inc e) events

absorb_all-snoc :
    (inc : Incident) (events : List Event) (e : Event)
    → absorb_all inc (events ++ e ∷ []) ≡ absorb (absorb_all inc events) e
absorb_all-snoc inc [] e = refl
absorb_all-snoc inc (x ∷ events) e = absorb_all-snoc (absorb inc x) events e

abbrev pub no_incident : Incident
no_incident = record { start = 0; stop = 0; kinds = []; details = [] }

-- A group's first and last time, its kinds and its details.
abbrev pub summary : List Event → Incident
summary [] = no_incident
summary (e ∷ events) = absorb_all (opened e) events

abbrev pub last_time : ℕ → List Event → ℕ
last_time t [] = t
last_time t (e ∷ events) = last_time e.t events

abbrev pub end_of : List Event → ℕ
end_of events = last_time 0 events

-- The event is at most the gap behind the last of the group, or more than that.
abbrev pub IsSoon : List Event → Event → Type 0
IsSoon group e = e.t ≤ end_of group + incident_gap_ms

abbrev pub IsLater : List Event → Event → Type 0
IsLater group e = end_of group + incident_gap_ms < e.t

abbrev soon : List Event → Event → Bool
soon group e = leb e.t (end_of group + incident_gap_ms)

stop-absorb_all :
    (inc : Incident) (events : List Event)
    → (absorb_all inc events).stop ≡ last_time inc.stop events
unfolding absorb
stop-absorb_all inc [] = refl
stop-absorb_all inc (e ∷ events) = stop-absorb_all (absorb inc e) events

stop-summary : (e : Event) (events : List Event) → (summary (e ∷ events)).stop ≡ end_of (e ∷ events)
unfolding opened
stop-summary e events = stop-absorb_all (opened e) events

continues-soon :
    (x : Event) (group : List Event) (e : Event)
    → continues (summary (x ∷ group)) e ≡ soon (x ∷ group) e
continues-soon x group e = ap (λ n. leb e.t (n + incident_gap_ms)) (stop-summary x group)

-- What the loop does with one event, on its three branches.
incidents_from-skip :
    (inc : Incident) (e : Event) (events : List Event)
    → is_context e.kind ≡ true
    → incidents_from inc (e ∷ events) ≡ incidents_from inc events
unfolding incidents_from
incidents_from-skip inc e events h = rw h refl

incidents_from-join :
    (inc : Incident) (e : Event) (events : List Event)
    → is_context e.kind ≡ false
    → continues inc e ≡ true
    → incidents_from inc (e ∷ events) ≡ incidents_from (absorb inc e) events
unfolding incidents_from
incidents_from-join inc e events h k = rw (h, k) refl

incidents_from-cut :
    (inc : Incident) (e : Event) (events : List Event)
    → is_context e.kind ≡ false
    → continues inc e ≡ false
    → incidents_from inc (e ∷ events) ≡ inc ∷ incidents_from (opened e) events
unfolding incidents_from
incidents_from-cut inc e events h k = rw (h, k) refl

failures-skip :
    (e : Event) (events : List Event)
    → is_context e.kind ≡ true
    → failures (e ∷ events) ≡ failures events
unfolding failures
failures-skip e events h = rw h refl

failures-keep :
    (e : Event) (events : List Event)
    → is_context e.kind ≡ false
    → failures (e ∷ events) ≡ e ∷ failures events
unfolding failures
failures-keep e events h = rw h refl

incidents_from-groups :
    (x : Event) (group events : List Event)
    → incidents_from (summary (x ∷ group)) events
      ≡ map summary (cluster_from soon (x ∷ group) (failures events))
incidents_from-groups x group [] = unfold incidents_from cluster_from failures in refl
incidents_from-groups x group (e ∷ events) = elim (Bool-cases (is_context e.kind)) [
  | inl skip ↦
      incidents_from-skip (summary (x ∷ group)) e events skip
      ∙ incidents_from-groups x group events
      ∙ rw (failures-skip e events skip) refl
  | inr keep ↦ elim (Bool-cases (soon (x ∷ group) e)) [
    | inl joins ↦
        incidents_from-join (summary (x ∷ group)) e events keep (continues-soon x group e ∙ joins)
        ∙ ap (λ inc. incidents_from inc events) (sym (absorb_all-snoc (opened x) group e))
        ∙ incidents_from-groups x (group ++ e ∷ []) events
        ∙ ap (map summary) (
            sym (cluster_from-join soon (x ∷ group) e (failures events) joins)
            ∙ ap (cluster_from soon (x ∷ group)) (sym (failures-keep e events keep)))
    | inr cuts ↦
        incidents_from-cut (summary (x ∷ group)) e events keep (continues-soon x group e ∙ cuts)
        ∙ ap (λ r. summary (x ∷ group) ∷ r) (incidents_from-groups e [] events)
        ∙ ap (map summary) (
            sym (cluster_from-cut soon (x ∷ group) e (failures events) cuts)
            ∙ ap (cluster_from soon (x ∷ group)) (sym (failures-keep e events keep)))
  ]
]

build_incidents-skip :
    (e : Event) (events : List Event)
    → is_context e.kind ≡ true
    → build_incidents (e ∷ events) ≡ build_incidents events
unfolding build_incidents
build_incidents-skip e events h = rw h refl

build_incidents-keep :
    (e : Event) (events : List Event)
    → is_context e.kind ≡ false
    → build_incidents (e ∷ events) ≡ incidents_from (opened e) events
unfolding build_incidents
build_incidents-keep e events h = rw h refl

build_incidents-groups :
    (events : List Event) → build_incidents events ≡ map summary (cluster soon (failures events))
build_incidents-groups [] = unfold build_incidents failures cluster in refl
build_incidents-groups (e ∷ events) = elim (Bool-cases (is_context e.kind)) [
  | inl skip ↦
      build_incidents-skip e events skip
      ∙ build_incidents-groups events
      ∙ ap (λ r. map summary (cluster soon r)) (sym (failures-skip e events skip))
  | inr keep ↦
      build_incidents-keep e events keep
      ∙ incidents_from-groups e [] events
      ∙ (unfold cluster in
          ap (λ r. map summary (cluster soon r)) (sym (failures-keep e events keep)))
]

-- The incidents of a device are the summaries of groups of its failures: the groups are all its
-- events but the context ones, in order, none of them lost; within a group each event comes at most
-- twelve seconds behind the one before it, and each group begins more than twelve seconds behind the
-- last event of the group before it.
pub build_incidents-summaries :
    (events : List Event)
    → (groups : List (List Event)) × (build_incidents events ≡ map summary groups)
      × (concat groups ≡ failures events)
      × AreGroups IsSoon IsLater groups
build_incidents-summaries events =
    let (joined, apart) =
      cluster-AreGroups IsSoon IsLater soon (λ g x h. ground (arith, h))
        (λ g x h. ground (arith, h)) (failures events) in
    (cluster soon (failures events), build_incidents-groups events, joined, apart)
