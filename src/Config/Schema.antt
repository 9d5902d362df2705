-- ===== src/Config/Schema.antt =====
-- components/snapclient/__init__.py: `CONFIG_SCHEMA`, `RATE_LOCK_SCHEMA` and the check of the bands.
-- A time period is read by ESPHome's `cv` before the range check: one of milliseconds is its
-- number of milliseconds here, one of microseconds its number of microseconds, and a word of an
-- enumeration is already in lower case. Where a value is rejected the key is reported.
use Prim.Native.String.{String}
use text.Mathlib.Text.{◌==◌ as str_eq}
use esphome_snapcast.Base.{
  ℕ, ◌*◌, Bool, true, false, ◌&&◌, Option, none, some, List, [], ◌∷◌, leb, if◌then◌else◌,
}

pub data ChannelMode : Type 0 where
  stereo left_only right_only mono : ChannelMode

pub data PauseBehavior : Type 0 where
  allow resume ignore : PauseBehavior

pub data SyncResilience : Type 0 where
  mute_on_storm play_through_storms never_mute : SyncResilience

pub data PhaseMode : Type 0 where
  no_phase left_phase right_phase both_phases : PhaseMode

-- `keepalive_hold`: a duration in milliseconds, or `never`.
pub data Hold : Type 0 where
  never : Hold
  duration : ℕ → Hold

abbrev pub channel_modes : List (String × ChannelMode)
channel_modes =
    ("stereo", stereo) ∷ ("left", left_only) ∷ ("right", right_only) ∷ ("mono", mono) ∷ []

abbrev pub pause_behaviors : List (String × PauseBehavior)
pause_behaviors = ("allow", allow) ∷ ("resume", resume) ∷ ("ignore", ignore) ∷ []

abbrev pub sync_resiliences : List (String × SyncResilience)
sync_resiliences =
    ("mute_on_storm", mute_on_storm)
    ∷ ("play_through_storms", play_through_storms)
    ∷ ("never_mute", never_mute)
    ∷ []

abbrev pub phase_modes : List (String × PhaseMode)
phase_modes =
    ("none", no_phase) ∷ ("left", left_phase) ∷ ("right", right_phase) ∷ ("both", both_phases) ∷ []

-- `cv.enum(table, lower=True)` on a word
unfoldable pub enum_lookup {ℓ} : {A : Type ℓ} → List (String × A) → String → Option A
enum_lookup [] word = none
enum_lookup ((name, value) ∷ table) word =
    if str_eq name word then some value else enum_lookup table word

-- `rate_lock:` with nothing behind it, or with a dict that may name the bus.
pub data RawRateLock : Type 0 where
  nothing : RawRateLock
  dict : Option String → RawRateLock

-- What the user wrote: a key may be absent.
pub record RawConfig : Type 0 where
  pub server : Option String
  pub port : Option ℕ
  pub name : Option String
  pub buffer_size : Option ℕ
  pub flac : Option Bool
  pub opus : Option Bool
  pub time_sync_interval : Option ℕ
  pub sync_deadband : Option ℕ
  pub converge_fine : Option ℕ
  pub hard_resync_threshold : Option ℕ
  pub channel_mode : Option String
  pub phase_invert : Option String
  pub rate_lock : Option RawRateLock
  pub tsf_sync : Option Bool
  pub timing_diagnostics : Option Bool
  pub pause_behavior : Option String
  pub sync_resilience : Option String
  pub reanchor_after_reconnect : Option Bool
  pub tsf_observer : Option Bool
  pub render_align_max : Option ℕ
  pub fast_splice_threshold : Option ℕ
  pub keepalive_hold : Option Hold
  pub stream_idle_timeout : Option ℕ

pub record ConfigType : Type 0 where
  pub server : Option String
  pub port : ℕ
  pub name : Option String
  pub buffer_size : ℕ
  pub flac : Bool
  pub opus : Bool
  pub time_sync_interval : ℕ
  pub sync_deadband : ℕ
  pub converge_fine : ℕ
  pub hard_resync_threshold : ℕ
  pub channel_mode : ChannelMode
  pub phase_invert : PhaseMode
  pub rate_lock : Option String
  pub tsf_sync : Bool
  pub timing_diagnostics : Bool
  pub pause_behavior : PauseBehavior
  pub sync_resilience : SyncResilience
  pub reanchor_after_reconnect : Bool
  pub tsf_observer : Bool
  pub render_align_max : ℕ
  pub fast_splice_threshold : ℕ
  pub keepalive_hold : Hold
  pub stream_idle_timeout : ℕ

pub data Key : Type 0 where
  port_key buffer_size_key time_sync_interval_key sync_deadband_key converge_fine_key
        hard_resync_threshold_key channel_mode_key phase_invert_key rate_lock_key pause_behavior_key
        sync_resilience_key render_align_max_key stream_idle_timeout_key platform_key :
      Key

pub data Result (A : Type 0) : Type 0 where
  ok : A → Result A
  invalid : List Key → Result A

-- The chip that is built for.
pub record Target : Type 0 where
  pub is_esp32 : Bool
  pub is_esp32s3 : Bool

abbrev pub or_default {ℓ} : {A : Type ℓ} → A → Option A → A
or_default d none = d
or_default d (some a) = a

-- An absent word takes the default, a word that the table lacks is no value.
unfoldable pub enum_or {ℓ} : {A : Type ℓ} → List (String × A) → A → Option String → Option A
enum_or table d none = some d
enum_or table d (some word) = enum_lookup table word

-- `RATE_LOCK_SCHEMA`: `None` becomes an empty dict, the bus is required, the chip is the S3.
unfoldable pub rate_lock_valid : Target → Option RawRateLock → Bool
rate_lock_valid t none = true
rate_lock_valid t (some nothing) = false
rate_lock_valid t (some (dict none)) = false
rate_lock_valid t (some (dict (some bus))) = t.is_esp32s3

abbrev pub rate_lock_bus : Option RawRateLock → Option String
rate_lock_bus (some (dict bus)) = bus
rate_lock_bus _ = none

-- The defaults of the schema put in.
unfoldable pub with_defaults : RawConfig → ConfigType
with_defaults r = record {
  server = r.server;
  port = or_default 1704 r.port;
  name = r.name;
  buffer_size = or_default 524288 r.buffer_size;
  flac = or_default true r.flac;
  opus = or_default false r.opus;
  time_sync_interval = or_default 250 r.time_sync_interval;
  sync_deadband = or_default 128 r.sync_deadband;
  converge_fine = or_default 2000 r.converge_fine;
  hard_resync_threshold = or_default 50 r.hard_resync_threshold;
  channel_mode = or_default stereo (enum_or channel_modes stereo r.channel_mode);
  phase_invert = or_default no_phase (enum_or phase_modes no_phase r.phase_invert);
  rate_lock = rate_lock_bus r.rate_lock;
  tsf_sync = or_default false r.tsf_sync;
  timing_diagnostics = or_default false r.timing_diagnostics;
  pause_behavior = or_default allow (enum_or pause_behaviors allow r.pause_behavior);
  sync_resilience =
      or_default mute_on_storm (enum_or sync_resiliences mute_on_storm r.sync_resilience);
  reanchor_after_reconnect = or_default false r.reanchor_after_reconnect;
  tsf_observer = or_default false r.tsf_observer;
  render_align_max = or_default 0 r.render_align_max;
  fast_splice_threshold = or_default 0 r.fast_splice_threshold;
  keepalive_hold = or_default never r.keepalive_hold;
  stream_idle_timeout = or_default 3000 r.stream_idle_timeout;
}

abbrev pub is_some {ℓ} : {A : Type ℓ} → Option A → Bool
is_some none = false
is_some (some _) = true

abbrev pub in_range : ℕ → ℕ → ℕ → Bool
in_range lo hi n = leb lo n && leb n hi

-- The keys whose check fails, in order.
abbrev pub rejected : List (Bool × Key) → List Key
rejected [] = []
rejected ((true, key) ∷ checks) = rejected checks
rejected ((false, key) ∷ checks) = key ∷ rejected checks

-- The checks of `cv.Schema`, in the schema's order.
unfoldable pub schema_checks : Target → RawConfig → List (Bool × Key)
schema_checks t r =
    let c = with_defaults r in
    (in_range 1 65535 c.port, port_key)
    ∷ (leb 65536 c.buffer_size, buffer_size_key)
    ∷ (in_range 100 60_000 c.time_sync_interval, time_sync_interval_key)
    ∷ (in_range 100 20_000 c.sync_deadband, sync_deadband_key)
    ∷ (in_range 250 50_000 c.converge_fine, converge_fine_key)
    ∷ (in_range 10 1000 c.hard_resync_threshold, hard_resync_threshold_key)
    ∷ (is_some (enum_or channel_modes stereo r.channel_mode), channel_mode_key)
    ∷ (is_some (enum_or phase_modes no_phase r.phase_invert), phase_invert_key)
    ∷ (rate_lock_valid t r.rate_lock, rate_lock_key)
    ∷ (is_some (enum_or pause_behaviors allow r.pause_behavior), pause_behavior_key)
    ∷ (is_some (enum_or sync_resiliences mute_on_storm r.sync_resilience), sync_resilience_key)
    ∷ (leb c.render_align_max 20_000, render_align_max_key)
    ∷ (in_range 500 30_000 c.stream_idle_timeout, stream_idle_timeout_key)
    ∷ []

unfoldable pub schema_errors : Target → RawConfig → List Key
unfolding schema_checks
schema_errors t r = rejected (schema_checks t r)

-- `_validate_convergence_bands`
unfoldable pub validate_convergence_bands : ConfigType → Result ConfigType
validate_convergence_bands config =
    let unmute_band_us = 2 * config.sync_deadband in
    let fine_us = config.converge_fine in
    let hard_us = config.hard_resync_threshold * 1000 in
    if leb fine_us unmute_band_us
    then invalid (converge_fine_key ∷ [])
    else if leb hard_us fine_us
    then invalid (converge_fine_key ∷ [])
    else ok config

abbrev pub only_on_esp32 : Target → ConfigType → Result ConfigType
only_on_esp32 t config = if t.is_esp32 then ok config else invalid (platform_key ∷ [])

infixl 5 ◌>>=◌
abbrev pub ◌>>=◌ : {A B : Type 0} → Result A → (A → Result B) → Result B
ok a >>= f = f a
invalid keys >>= f = invalid keys

unfoldable pub validate_schema : Target → RawConfig → Result ConfigType
unfolding schema_errors
validate_schema t r = elim (schema_errors t r) [
  | [] ↦ ok (with_defaults r)
  | key ∷ keys ↦ invalid (key ∷ keys)
]

-- `CONFIG_SCHEMA`, up to the networking requests, which are calls of ESPHome alone.
unfoldable pub config_schema : Target → RawConfig → Result ConfigType
unfolding validate_schema validate_convergence_bands
config_schema t r = do
  c ← validate_schema t r
  c' ← only_on_esp32 t c
  validate_convergence_bands c'
