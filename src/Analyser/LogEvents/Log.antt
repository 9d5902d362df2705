-- ===== src/Analyser/LogEvents/Log.antt =====
-- scripts/i2s-skew.py: the state that `parse_sync_events` carries from one call to the next, and the
-- lists that it returns. An event is the data that the source formats into its text.
use Prim.Native.String.{String}
use esphome_snapcast.Base.{ℕ, Bool, false, Option, none, List, [], ◌∷◌, ◌++◌}
use esphome_snapcast.Base.Int.{ℤ}

pub data StopReason : Type 0 where
  split_hold gated no_chunks lock_unavailable : StopReason

pub data Event (F : Type 0) : Type 0 where
  role_change : String → String → Event F
  out_of_range : ℤ → Event F
  loop_mode : String → Option F → Event F
  servo_param : String → String → Event F
  tau_first : String → Event F
  tau_change : String → String → Event F
  trim_stop : StopReason → Event F
  trim_rail : ℕ → ℕ → Event F
  trim_change : F → F → Event F
  pipeline_change : ℤ → ℤ → Event F
  consensus_change : ℕ → ℕ → Event F
  render_unknown : ℕ → Event F
  ledger_bias : ℤ → Event F
  peer_phase : String → ℤ → ℤ → Event F
  sync_error : ℤ → ℤ → Event F
  corrected : ℕ → ℕ → Event F
  hard_resync : ℕ → Event F

-- The series of `extras`.
pub data Key : Type 0 where
  dl_err dl_trim dl_int rphase_gate rphase_plot phase_us depth_us ramp_ppm crystal_ppm : Key

-- What stands in a tuple of a series: a device time, if the line has one, or a value.
pub data Entry (F : Type 0) : Type 0 where
  dev_time : Option ℕ → Entry F
  value_of : F → Entry F

-- A tuple of a series: the time of day and two entries, of which `collect_events` takes the first for
-- the device time and the second for the value.
pub record Point (F : Type 0) : Type 0 where
  pub key : Key
  pub tod : ℕ
  pub entry_1 : Entry F
  pub entry_2 : Entry F

pub record Burst : Type 0 where
  pub tod : ℕ
  pub seq : ℤ
  pub t : ℤ
  pub err : ℤ
  pub med : ℤ
  pub ring : ℤ
  pub drops : ℤ

pub record Seed : Type 0 where
  pub tod : ℕ
  pub dev : Option ℕ
  pub latency : ℕ
  pub age : ℤ
  pub frames : ℤ
  pub drained : Option ℤ

-- A trim window: the mean, if a trim was programmed, and the audio time.
pub record TrimPoint (F : Type 0) : Type 0 where
  pub tod : ℕ
  pub mean : Option F
  pub audio : F
  pub dev : Option ℕ

-- `state`
pub record Memory (F : Type 0) : Type 0 where
  pub trim : Option F
  pub resync : Option ℕ
  pub pipe : Option ℤ
  pub consensus : Option ℕ
  pub role : Option String
  pub oor : Bool
  pub oor_t : Option ℕ
  pub dlmode : Option String
  pub dlmode_t : Option ℕ
  pub tau : Option String
  pub tau_t : Option ℕ

abbrev pub new_memory : {F : Type 0} → Memory F
new_memory = record {
  trim = none;
  resync = none;
  pipe = none;
  consensus = none;
  role = none;
  oor = false;
  oor_t = none;
  dlmode = none;
  dlmode_t = none;
  tau = none;
  tau_t = none;
}

pub record Log (F : Type 0) : Type 0 where
  pub memory : Memory F
  pub events : List (ℕ × Event F)
  pub temps : List (ℕ × (String × F))
  pub trims : List (TrimPoint F)
  pub extras : List (Point F)
  pub rsyncs : List Burst
  pub seeds : List Seed
  pub repairs : List (ℕ × ℤ)
  pub injects : List (ℕ × (Option ℕ × ℤ))

abbrev pub new_log : {F : Type 0} → Memory F → Log F
new_log memory = record {
  memory = memory;
  events = [];
  temps = [];
  trims = [];
  extras = [];
  rsyncs = [];
  seeds = [];
  repairs = [];
  injects = [];
}

-- `ev.append`, and an append to a series
abbrev pub mark : {F : Type 0} → ℕ → Event F → Log F → Log F
mark t event log = record log { events = log.events ++ (t, event) ∷ [] }

abbrev pub add_tuple : {F : Type 0} → Key → ℕ → Entry F → Entry F → Log F → Log F
add_tuple key t a b log = record log {
  extras = log.extras ++ record { key = key; tod = t; entry_1 = a; entry_2 = b } ∷ [];
}

-- (tod, dev, value)
abbrev pub add_point : {F : Type 0} → Key → ℕ → Option ℕ → F → Log F → Log F
add_point key t dev value log = add_tuple key t (dev_time dev) (value_of value) log
