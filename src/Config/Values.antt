-- ===== src/Config/Values.antt =====
-- components/snapclient/__init__.py: the values of an accepted configuration.
use Prim.Native.String.{String}
use mathlib.Core.Path.{subst}
use esphome_snapcast.Base.{◌≡◌, ◌↔◌, refl, ◌∙◌, sym, true, false, Option, none, some, List, [], ◌∷◌}
use esphome_snapcast.Config.Schema.{
  RawConfig, ConfigType, Target, RawRateLock, nothing, dict, ChannelMode, stereo, left_only,
  right_only, mono, PauseBehavior, allow, resume, ignore, SyncResilience, mute_on_storm,
  play_through_storms, never_mute, PhaseMode, no_phase, left_phase, right_phase, both_phases, never,
  ok, channel_modes, phase_modes, pause_behaviors, sync_resiliences, or_default, rate_lock_valid,
  rate_lock_bus, with_defaults, config_schema,
}
use esphome_snapcast.Config.Words.{IsWord, enum_or-IsWord, enum_or-known}
use esphome_snapcast.Config.Accepts.{InRange, HasKnownWords, IsOrdered, config_schema-Accepted}

-- The documented words.
abbrev pub channel_words : List (String × ChannelMode)
channel_words =
    ("stereo", stereo) ∷ ("left", left_only) ∷ ("right", right_only) ∷ ("mono", mono) ∷ []

abbrev pub phase_words : List (String × PhaseMode)
phase_words =
    ("none", no_phase) ∷ ("left", left_phase) ∷ ("right", right_phase) ∷ ("both", both_phases) ∷ []

abbrev pub pause_words : List (String × PauseBehavior)
pause_words = ("allow", allow) ∷ ("resume", resume) ∷ ("ignore", ignore) ∷ []

abbrev pub resilience_words : List (String × SyncResilience)
resilience_words =
    ("mute_on_storm", mute_on_storm)
    ∷ ("play_through_storms", play_through_storms)
    ∷ ("never_mute", never_mute)
    ∷ []

-- What the user wrote, or else the default.
abbrev pub given : {A : Type 0} → Option A → A → A
given none d = d
given (some a) d = a

given-or_default : {A : Type 0} (o : Option A) (d : A) → given o d ≡ or_default d o
given-or_default none d = refl
given-or_default (some a) d = refl

-- A rate lock names its bus, on an S3; without `rate_lock:` there is none.
abbrev pub IsLocked : Target → Option RawRateLock → Option String → Type 0
IsLocked t none bus = bus ≡ none
IsLocked t (some nothing) bus = ⊥
IsLocked t (some (dict none)) bus = ⊥
IsLocked t (some (dict (some name))) bus = (t.is_esp32s3 ≡ true) × (bus ≡ some name)

rate_lock_valid-IsLocked :
    (t : Target) (lock : Option RawRateLock)
    → rate_lock_valid t lock ≡ true
    → IsLocked t lock (rate_lock_bus lock)
unfolding rate_lock_valid
rate_lock_valid-IsLocked t none h = refl
rate_lock_valid-IsLocked t (some nothing) h = cc h
rate_lock_valid-IsLocked t (some (dict none)) h = cc h
rate_lock_valid-IsLocked t (some (dict (some name))) h = (h, refl)

IsLocked-valid :
    (t : Target) (lock : Option RawRateLock) (bus : Option String)
    → IsLocked t lock bus
    → (rate_lock_valid t lock ≡ true) × (bus ≡ rate_lock_bus lock)
unfolding rate_lock_valid
IsLocked-valid t none bus h = (refl, h)
IsLocked-valid t (some nothing) bus h = absurd h
IsLocked-valid t (some (dict none)) bus h = absurd h
IsLocked-valid t (some (dict (some name))) bus h = h

-- Each value is the one that the user wrote, a word by its meaning, or the documented default.
pub record HasValues (t : Target) (r : RawConfig) (c : ConfigType) : Type 0 where
  pub server : c.server ≡ r.server
  pub port : c.port ≡ given r.port 1704
  pub name : c.name ≡ r.name
  pub buffer_size : c.buffer_size ≡ given r.buffer_size 524288
  pub flac : c.flac ≡ given r.flac true
  pub opus : c.opus ≡ given r.opus false
  pub time_sync_interval : c.time_sync_interval ≡ given r.time_sync_interval 250
  pub sync_deadband : c.sync_deadband ≡ given r.sync_deadband 128
  pub converge_fine : c.converge_fine ≡ given r.converge_fine 2000
  pub hard_resync_threshold : c.hard_resync_threshold ≡ given r.hard_resync_threshold 50
  pub channel_mode : IsWord channel_words stereo r.channel_mode c.channel_mode
  pub phase_invert : IsWord phase_words no_phase r.phase_invert c.phase_invert
  pub rate_lock : IsLocked t r.rate_lock c.rate_lock
  pub tsf_sync : c.tsf_sync ≡ given r.tsf_sync false
  pub timing_diagnostics : c.timing_diagnostics ≡ given r.timing_diagnostics false
  pub pause_behavior : IsWord pause_words allow r.pause_behavior c.pause_behavior
  pub sync_resilience : IsWord resilience_words mute_on_storm r.sync_resilience c.sync_resilience
  pub reanchor_after_reconnect : c.reanchor_after_reconnect ≡ given r.reanchor_after_reconnect false
  pub tsf_observer : c.tsf_observer ≡ given r.tsf_observer false
  pub render_align_max : c.render_align_max ≡ given r.render_align_max 0
  pub fast_splice_threshold : c.fast_splice_threshold ≡ given r.fast_splice_threshold 0
  pub keepalive_hold : c.keepalive_hold ≡ given r.keepalive_hold never
  pub stream_idle_timeout : c.stream_idle_timeout ≡ given r.stream_idle_timeout 3000

with_defaults-HasValues :
    (t : Target) (r : RawConfig) → HasKnownWords t r → HasValues t r (with_defaults r)
unfolding with_defaults
with_defaults-HasValues t r known = record {
  server = refl;
  port = sym (given-or_default r.port 1704);
  name = refl;
  buffer_size = sym (given-or_default r.buffer_size 524288);
  flac = sym (given-or_default r.flac true);
  opus = sym (given-or_default r.opus false);
  time_sync_interval = sym (given-or_default r.time_sync_interval 250);
  sync_deadband = sym (given-or_default r.sync_deadband 128);
  converge_fine = sym (given-or_default r.converge_fine 2000);
  hard_resync_threshold = sym (given-or_default r.hard_resync_threshold 50);
  channel_mode = enum_or-IsWord channel_modes stereo r.channel_mode known.channel_mode;
  phase_invert = enum_or-IsWord phase_modes no_phase r.phase_invert known.phase_invert;
  rate_lock = rate_lock_valid-IsLocked t r.rate_lock known.rate_lock;
  tsf_sync = sym (given-or_default r.tsf_sync false);
  timing_diagnostics = sym (given-or_default r.timing_diagnostics false);
  pause_behavior = enum_or-IsWord pause_behaviors allow r.pause_behavior known.pause_behavior;
  sync_resilience =
      enum_or-IsWord sync_resiliences mute_on_storm r.sync_resilience known.sync_resilience;
  reanchor_after_reconnect = sym (given-or_default r.reanchor_after_reconnect false);
  tsf_observer = sym (given-or_default r.tsf_observer false);
  render_align_max = sym (given-or_default r.render_align_max 0);
  fast_splice_threshold = sym (given-or_default r.fast_splice_threshold 0);
  keepalive_hold = sym (given-or_default r.keepalive_hold never);
  stream_idle_timeout = sym (given-or_default r.stream_idle_timeout 3000);
}

HasValues-with_defaults :
    (t : Target) (r : RawConfig) (c : ConfigType) → HasValues t r c → c ≡ with_defaults r
unfolding with_defaults
HasValues-with_defaults t r c h = λ i. record {
  server = h.server i;
  port = (h.port ∙ given-or_default r.port 1704) i;
  name = h.name i;
  buffer_size = (h.buffer_size ∙ given-or_default r.buffer_size 524288) i;
  flac = (h.flac ∙ given-or_default r.flac true) i;
  opus = (h.opus ∙ given-or_default r.opus false) i;
  time_sync_interval = (h.time_sync_interval ∙ given-or_default r.time_sync_interval 250) i;
  sync_deadband = (h.sync_deadband ∙ given-or_default r.sync_deadband 128) i;
  converge_fine = (h.converge_fine ∙ given-or_default r.converge_fine 2000) i;
  hard_resync_threshold = (h.hard_resync_threshold ∙ given-or_default r.hard_resync_threshold 50) i;
  channel_mode =
      (enum_or-known channel_modes stereo r.channel_mode c.channel_mode h.channel_mode).1 i;
  phase_invert =
      (enum_or-known phase_modes no_phase r.phase_invert c.phase_invert h.phase_invert).1 i;
  rate_lock = (IsLocked-valid t r.rate_lock c.rate_lock h.rate_lock).1 i;
  tsf_sync = (h.tsf_sync ∙ given-or_default r.tsf_sync false) i;
  timing_diagnostics = (h.timing_diagnostics ∙ given-or_default r.timing_diagnostics false) i;
  pause_behavior =
      (enum_or-known pause_behaviors allow r.pause_behavior c.pause_behavior h.pause_behavior).1 i;
  sync_resilience =
      (enum_or-known sync_resiliences mute_on_storm r.sync_resilience c.sync_resilience
          h.sync_resilience).1
        i;
  reanchor_after_reconnect =
      (h.reanchor_after_reconnect ∙ given-or_default r.reanchor_after_reconnect false) i;
  tsf_observer = (h.tsf_observer ∙ given-or_default r.tsf_observer false) i;
  render_align_max = (h.render_align_max ∙ given-or_default r.render_align_max 0) i;
  fast_splice_threshold = (h.fast_splice_threshold ∙ given-or_default r.fast_splice_threshold 0) i;
  keepalive_hold = (h.keepalive_hold ∙ given-or_default r.keepalive_hold never) i;
  stream_idle_timeout = (h.stream_idle_timeout ∙ given-or_default r.stream_idle_timeout 3000) i;
}

HasValues-HasKnownWords :
    (t : Target) (r : RawConfig) (c : ConfigType) → HasValues t r c → HasKnownWords t r
HasValues-HasKnownWords t r c h = record {
  channel_mode =
      (enum_or-known channel_modes stereo r.channel_mode c.channel_mode h.channel_mode).0;
  phase_invert =
      (enum_or-known phase_modes no_phase r.phase_invert c.phase_invert h.phase_invert).0;
  pause_behavior =
      (enum_or-known pause_behaviors allow r.pause_behavior c.pause_behavior h.pause_behavior).0;
  sync_resilience =
      (enum_or-known sync_resiliences mute_on_storm r.sync_resilience c.sync_resilience
        h.sync_resilience).0;
  rate_lock = (IsLocked-valid t r.rate_lock c.rate_lock h.rate_lock).0;
}

-- A configuration is accepted, and comes out as `c`, exactly when each value of `c` is what the user
-- wrote or the documented default, every word one of the documented ones with its meaning, a rate
-- lock names a bus and is for an S3, every number lies in its range, the three thresholds are ordered
-- and the chip is an ESP32.
pub config_schema_iff :
    (t : Target) (r : RawConfig) (c : ConfigType)
    → (config_schema t r ≡ ok c) ↔ (HasValues t r c × InRange c × IsOrdered c × (t.is_esp32 ≡ true))
config_schema_iff t r c =
    let accepted = config_schema-Accepted t r c in
    (
      λ h.
          let ((ranges, words, ordered, chip), same) = accepted.0 h in
          (
            subst (HasValues t r) (sym same) (with_defaults-HasValues t r words),
            subst InRange (sym same) ranges,
            subst IsOrdered (sym same) ordered,
            chip,
          ),
      λ (values, ranges, ordered, chip).
          let same = HasValues-with_defaults t r c values in
          accepted.1 (
            (
              subst InRange same ranges,
              HasValues-HasKnownWords t r c values,
              subst IsOrdered same ordered,
              chip,
            ),
            same,
          ),
    )
