-- ===== src/Config/Examples.antt =====
-- components/snapclient/__init__.py: configurations and what is generated for them.
use Prim.Native.String.{String}
use esphome_snapcast.Base.{ℕ, ◌≡◌, ◌↔◌, refl, true, none, some, List, [], ◌∷◌}
use esphome_snapcast.Config.Schema.{
  RawConfig, ConfigType, Target, duration, ok, invalid, with_defaults, config_schema, enum_or,
  enum_lookup, schema_checks, rate_lock_valid, converge_fine_key,
}
use esphome_snapcast.Config.Codegen.{
  to_code, hold_code, resolve_i2s_port, rate_lock_calls, hub_calls, feature_calls,
}
use esphome_snapcast.Config.Accepts.{InRange, IsOrdered}
use esphome_snapcast.Config.Values.{HasValues, config_schema_iff}
use esphome_snapcast.Config.Emits.{
  hold_meaning, IsKept, hold_meaning-hold_code, IsHoldCode, ports_set, holds_set, IsResolved,
  to_code_lem,
}

abbrev s3 : Target
s3 = record { is_esp32 = true; is_esp32s3 = true }

abbrev minimal : RawConfig
minimal = record {
  server = none;
  port = none;
  name = none;
  buffer_size = none;
  flac = none;
  opus = none;
  time_sync_interval = none;
  sync_deadband = none;
  converge_fine = none;
  hard_resync_threshold = none;
  channel_mode = none;
  phase_invert = none;
  rate_lock = none;
  tsf_sync = none;
  timing_diagnostics = none;
  pause_behavior = none;
  sync_resilience = none;
  reanchor_after_reconnect = none;
  tsf_observer = none;
  render_align_max = none;
  fast_splice_threshold = none;
  keepalive_hold = none;
  stream_idle_timeout = none;
}

-- The defaults are accepted.
minimal_accepted : config_schema s3 minimal ≡ ok (with_defaults minimal)
unfolding config_schema with_defaults enum_or enum_lookup schema_checks rate_lock_valid
minimal_accepted = refl

-- A hand-off inside the unmute band is not.
narrow_refused :
    config_schema s3 (record minimal { sync_deadband = some 1000; converge_fine = some 2000 })
    ≡ invalid (converge_fine_key ∷ [])
unfolding config_schema with_defaults enum_or enum_lookup schema_checks rate_lock_valid
narrow_refused = refl

config_schema_iff_example : (config_schema s3 minimal ≡ ok (with_defaults minimal)) ↔ (
    HasValues s3 minimal (with_defaults minimal)
    × InRange (with_defaults minimal)
    × IsOrdered (with_defaults minimal)
    × (s3.is_esp32 ≡ true))
config_schema_iff_example = config_schema_iff s3 minimal (with_defaults minimal)

hold_meaning-hold_code_example :
    (hold_meaning (hold_code (duration 0)) ≡ duration 0) ↔ IsKept (duration 0)
hold_meaning-hold_code_example = hold_meaning-hold_code (duration 0)

abbrev ports : List (String × ℕ)
ports = ("mic_bus", 0) ∷ ("speaker_bus", 1) ∷ []

abbrev steered : ConfigType
steered = record (with_defaults minimal) { rate_lock = some "speaker_bus" }

port_found : ports_set (to_code ports steered).calls ≡ 1 ∷ []
unfolding ports_set to_code resolve_i2s_port rate_lock_calls hub_calls feature_calls with_defaults
    enum_or enum_lookup
port_found = refl

to_code_lem_example :
    let g = to_code ports steered in
    ((ms : ℕ) × (holds_set g.calls ≡ ms ∷ []) × IsHoldCode steered.keepalive_hold ms)
    × IsResolved ports steered.rate_lock (ports_set g.calls) g.raised
to_code_lem_example = to_code_lem ports steered
