-- ===== src/Incidents/Events.antt =====
-- scripts/diagnose-logs.py: `parse`. A line is its text with what the patterns TS, RESYNC, SYNC and
-- RSSI match in it. A time is whole milliseconds of the day.
use Prim.Native.String.{String}
use text.Mathlib.Text.{find?}
use esphome_snapcast.Base.{
  ℕ, ◌+◌, ◌*◌, Bool, true, false, Option, none, some, List, [], ◌∷◌, ◌++◌, ltb, if◌then◌else◌,
}
use esphome_snapcast.Base.Int.{ℤ, pos, ltb_ℤ}

pub data Kind : Type 0 where
  starve wedge reconnect stream_idle ota_start ota_done tsf_lead tsf_yield : Kind
  tsf_reanchor lock resync ring_low pipeline_neg : Kind

-- MARKERS
abbrev pub markers : List (String × Kind)
markers =
    ("re-baselining playout", starve)
    ∷ ("refusing audio", wedge)
    ∷ ("Connected to ", reconnect)
    ∷ ("Stream idle for", stream_idle)
    ∷ ("Starting update from", ota_start)
    ∷ ("Update complete", ota_done)
    ∷ ("Assuming TSF leadership", tsf_lead)
    ∷ ("Yielding leadership", tsf_yield)
    ∷ ("Timebase re-anchor", tsf_reanchor)
    ∷ ("Sync locked", lock)
    ∷ []

-- The third part of an event, as the texts that are written there: "120ms late", "80ms", "".
pub data Detail : Type 0 where
  no_detail : Detail
  lateness : (ms : ℕ) → (late : Bool) → Detail
  buffered : (ms : ℕ) → Detail
  pipeline : (ms : ℤ) → Detail

pub record Event : Type 0 where
  pub t : ℕ
  pub kind : Kind
  pub detail : Detail

-- The groups of SYNC.
pub record Sync : Type 0 where
  pub median : ℤ
  pub drop : ℕ
  pub ins : ℕ
  pub resyncs : ℕ
  pub buf : ℕ
  pub pipe : Option ℤ

-- The groups of TS; `ms` is filled up to three digits.
pub record Stamp : Type 0 where
  pub h : ℕ
  pub mi : ℕ
  pub s : ℕ
  pub ms : Option ℕ

pub record Line : Type 0 where
  pub text : String
  pub stamp : Option Stamp
  pub resync_in : Option (ℕ × Bool)
  pub sync_in : Option Sync
  pub rssi_in : Option ℤ

abbrev pub or_zero : Option ℕ → ℕ
or_zero none = 0
or_zero (some n) = n

unfoldable pub t_of : Stamp → ℕ
t_of st = (st.h * 3600 + st.mi * 60 + st.s) * 1000 + or_zero st.ms

-- `needle in line`
abbrev pub contains : String → String → Bool
contains text needle = elim (find? text needle) [ none ↦ false | some i ↦ true ]

-- The loop over MARKERS, up to the first that is in the line.
unfoldable pub marker_of : List (String × Kind) → String → Option Kind
marker_of [] text = none
marker_of ((needle, kind) ∷ rest) text =
    let other = marker_of rest text in if contains text needle then some kind else other

abbrev pub event_of : ℕ → Option Kind → List Event
event_of t none = []
event_of t (some k) = record { t = t; kind = k; detail = no_detail } ∷ []

abbrev pub resync_event : ℕ → Option (ℕ × Bool) → List Event
resync_event t none = []
resync_event t (some (ms, late)) = record { t = t; kind = resync; detail = lateness ms late } ∷ []

abbrev pub ring_low_ms : ℕ
ring_low_ms = 400

abbrev pub pipe_event : ℕ → Option ℤ → List Event
pipe_event t none = []
pipe_event t (some pipe) =
    if ltb_ℤ pipe (pos 0)
    then record { t = t; kind = pipeline_neg; detail = pipeline pipe } ∷ []
    else []

abbrev pub sync_events : ℕ → Option Sync → List Event
sync_events t none = []
sync_events t (some s) =
    (if ltb s.buf ring_low_ms
      then record { t = t; kind = ring_low; detail = buffered s.buf } ∷ []
      else [])
    ++ pipe_event t s.pipe

abbrev pub with_time {ℓ} : {A : Type ℓ} → ℕ → Option A → List (ℕ × A)
with_time t none = []
with_time t (some a) = (t, a) ∷ []

abbrev pub option_list {ℓ} : {A : Type ℓ} → Option A → List A
option_list none = []
option_list (some a) = a ∷ []

pub record Parsed : Type 0 where
  pub events : List Event
  pub sync : List (ℕ × Sync)
  pub rssi : List ℤ

-- What a line adds; a line without a time adds nothing.
unfoldable pub parse_line : Line → Parsed
unfolding t_of marker_of
parse_line line = elim line.stamp [
  | none ↦ record { events = []; sync = []; rssi = [] }
  | some st ↦
      let t = t_of st in
      record {
        events =
            event_of t (marker_of markers line.text)
            ++ (resync_event t line.resync_in ++ sync_events t line.sync_in);
        sync = with_time t line.sync_in;
        rssi = option_list line.rssi_in;
      }
]

unfoldable pub parse_lines : List Line → Parsed
unfolding parse_line
parse_lines [] = record { events = []; sync = []; rssi = [] }
parse_lines (line ∷ lines) =
    let here = parse_line line in
    let rest = parse_lines lines in
    record {
      events = here.events ++ rest.events;
      sync = here.sync ++ rest.sync;
      rssi = here.rssi ++ rest.rssi;
    }

-- The order of `events.sort()`: by time, and `ties` says how the texts of two events of one time
-- compare.
abbrev pub event_le : (Event → Event → Bool) → Event → Event → Bool
event_le ties a b = if ltb a.t b.t then true else if ltb b.t a.t then false else ties a b

module _ {ℓ} {A : Type ℓ} (le : A → A → Bool) where
  abbrev pub insert : A → List A → List A
  insert x [] = x ∷ []
  insert x (y ∷ ys) = if le x y then x ∷ y ∷ ys else y ∷ insert x ys

  -- `sorted`, for a total order
  unfoldable pub sort : List A → List A
  sort [] = []
  sort (x ∷ xs) = insert x (sort xs)

unfoldable pub parse : (Event → Event → Bool) → List Line → Parsed
unfolding parse_lines sort
parse ties lines =
    let all = parse_lines lines in record all { events = sort (event_le ties) all.events }
