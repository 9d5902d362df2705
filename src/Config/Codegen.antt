-- ===== src/Config/Codegen.antt =====
-- components/snapclient/__init__.py: `_resolve_i2s_port` and the calls that `to_code` makes, in
-- order. The map of the buses to their ports is i2s_audio's, and a parameter.
use Prim.Native.String.{String}
use esphome_snapcast.Base.{ℕ, Bool, true, false, Option, none, some, List, [], ◌∷◌, ◌++◌}
use esphome_snapcast.Config.Schema.{
  ChannelMode, PauseBehavior, SyncResilience, PhaseMode, Hold, never, duration, ConfigType,
  enum_lookup, or_default,
}

pub data Define : Type 0 where
  use_timing_diag use_flac use_opus : Define

-- A call into code generation or into another component.
pub data Call : Type 0 where
  register_component request_ota_state_listeners request_rate_lock request_tsf_sync
        request_flac_support request_opus_support :
      Call
  set_server : String → ℕ → Call
  set_client_name : String → Call
  set_buffer_size set_time_sync_interval set_sync_deadband set_converge_fine
        set_hard_resync_threshold set_stream_idle_timeout set_fast_splice_threshold
        set_render_align_max set_keepalive_hold set_rate_lock_port :
      ℕ → Call
  set_pause_behavior : PauseBehavior → Call
  set_sync_resilience : SyncResilience → Call
  set_reanchor_after_reconnect set_tsf_observer : Bool → Call
  set_channel_mode : ChannelMode → Call
  set_phase_mode : PhaseMode → Call
  add_define : Define → Call

-- The bus whose port i2s_audio does not know.
pub data Invalid : Type 0 where
  unknown_bus : String → Invalid

-- The calls made, and the exception that ended them if one did.
pub record Generated : Type 0 where
  pub calls : List Call
  pub raised : Option Invalid

-- `port_map.get(str(bus_id))`: the map is a dict, so a name stands in it once.
unfoldable pub resolve_i2s_port : List (String × ℕ) → String → Option ℕ
resolve_i2s_port = enum_lookup

-- `0 if hold == CONF_NEVER else hold.total_milliseconds`
unfoldable pub hold_code : Hold → ℕ
hold_code never = 0
hold_code (duration ms) = ms

abbrev pub when : Bool → List Call → List Call
when true calls = calls
when false calls = []

abbrev pub client_name_calls : Option String → List Call
client_name_calls none = []
client_name_calls (some name) = set_client_name name ∷ []

-- Everything up to the rate lock.
unfoldable pub hub_calls : ConfigType → List Call
unfolding hold_code
hub_calls c =
    (register_component
      ∷ request_ota_state_listeners
      ∷ set_server (or_default "" c.server) c.port
      ∷ client_name_calls c.name)
    ++ (set_buffer_size c.buffer_size
        ∷ set_time_sync_interval c.time_sync_interval
        ∷ set_sync_deadband c.sync_deadband
        ∷ set_converge_fine c.converge_fine
        ∷ set_hard_resync_threshold c.hard_resync_threshold
        ∷ set_stream_idle_timeout c.stream_idle_timeout
        ∷ set_pause_behavior c.pause_behavior
        ∷ set_sync_resilience c.sync_resilience
        ∷ set_reanchor_after_reconnect c.reanchor_after_reconnect
        ∷ set_fast_splice_threshold c.fast_splice_threshold
        ∷ set_render_align_max c.render_align_max
        ∷ set_tsf_observer c.tsf_observer
        ∷ set_keepalive_hold (hold_code c.keepalive_hold)
        ∷ set_channel_mode c.channel_mode
        ∷ set_phase_mode c.phase_invert
        ∷ [])

-- What is asked for behind the rate lock: the optional features.
unfoldable pub feature_calls : ConfigType → List Call
feature_calls c =
    when c.tsf_sync (request_tsf_sync ∷ [])
    ++ (when c.timing_diagnostics (add_define use_timing_diag ∷ [])
        ++ (when c.flac (request_flac_support ∷ add_define use_flac ∷ [])
            ++ when c.opus (request_opus_support ∷ add_define use_opus ∷ [])))

-- Behind the request of the feature; without a port it raises.
abbrev pub port_calls : String → Option ℕ → Generated
port_calls bus none = record { calls = request_rate_lock ∷ []; raised = some (unknown_bus bus) }
port_calls bus (some port) = record {
  calls = request_rate_lock ∷ set_rate_lock_port port ∷ [];
  raised = none;
}

-- `rate_lock:` asks for the feature before it looks for the port, and raises without one.
unfoldable pub rate_lock_calls : List (String × ℕ) → Option String → Generated
unfolding resolve_i2s_port
rate_lock_calls ports none = record { calls = []; raised = none }
rate_lock_calls ports (some bus) = port_calls bus (resolve_i2s_port ports bus)

-- `to_code`
unfoldable pub to_code : List (String × ℕ) → ConfigType → Generated
to_code ports c =
    let locked = rate_lock_calls ports c.rate_lock in
    elim locked.raised [
      | none ↦ record { calls = hub_calls c ++ (locked.calls ++ feature_calls c); raised = none }
      | some e ↦ record { calls = hub_calls c ++ locked.calls; raised = some e }
    ]
