-- ===== src/Config/Accepts.antt =====
-- components/snapclient/__init__.py: which configurations are accepted.
use esphome_snapcast.Base.{
  ℕ, ◌*◌, ◌≤◌, ◌<◌, ◌≡◌, refl, ◌∙◌, ap, sym, Bool, true, false, List, [], ◌∷◌, arith, leb, ◌↔◌,
}
use esphome_snapcast.Config.Schema.{
  RawConfig, ConfigType, Target, Key, ok, channel_modes, phase_modes, pause_behaviors,
  sync_resiliences, enum_or, stereo, no_phase, allow, mute_on_storm, rate_lock_valid, with_defaults,
  is_some, in_range, rejected, schema_checks, schema_errors, validate_schema, config_schema,
}

-- The documented ranges of the numeric options.
pub record InRange (c : ConfigType) : Type 0 where
  pub port : (1 ≤ c.port) × (c.port ≤ 65535)
  pub buffer_size : 65536 ≤ c.buffer_size
  pub time_sync_interval : (100 ≤ c.time_sync_interval) × (c.time_sync_interval ≤ 60_000)
  pub sync_deadband : (100 ≤ c.sync_deadband) × (c.sync_deadband ≤ 20_000)
  pub converge_fine : (250 ≤ c.converge_fine) × (c.converge_fine ≤ 50_000)
  pub hard_resync_threshold : (10 ≤ c.hard_resync_threshold) × (c.hard_resync_threshold ≤ 1000)
  pub render_align_max : c.render_align_max ≤ 20_000
  pub stream_idle_timeout : (500 ≤ c.stream_idle_timeout) × (c.stream_idle_timeout ≤ 30_000)

-- Every word is one of its enumeration, and the rate lock, if asked for, names a bus of an S3.
pub record HasKnownWords (t : Target) (r : RawConfig) : Type 0 where
  pub channel_mode : is_some (enum_or channel_modes stereo r.channel_mode) ≡ true
  pub phase_invert : is_some (enum_or phase_modes no_phase r.phase_invert) ≡ true
  pub pause_behavior : is_some (enum_or pause_behaviors allow r.pause_behavior) ≡ true
  pub sync_resilience : is_some (enum_or sync_resiliences mute_on_storm r.sync_resilience) ≡ true
  pub rate_lock : rate_lock_valid t r.rate_lock ≡ true

-- The three sync thresholds are ordered, in microseconds: the unmute band below the hand-off,
-- the hand-off below the hard resync.
pub record IsOrdered (c : ConfigType) : Type 0 where
  pub fine_above_band : 2 * c.sync_deadband < c.converge_fine
  pub fine_below_hard : c.converge_fine < c.hard_resync_threshold * 1000

abbrev pub Accepted : Target → RawConfig → Type 0
Accepted t r =
    InRange (with_defaults r)
    × HasKnownWords t r
    × IsOrdered (with_defaults r)
    × (t.is_esp32 ≡ true)

abbrev Passed : List (Bool × Key) → Type 0
Passed [] = Unit
Passed ((test, key) ∷ checks) = (test ≡ true) × Passed checks

rejected-Passed : (checks : List (Bool × Key)) → rejected checks ≡ [] → Passed checks
rejected-Passed [] h = tt
rejected-Passed ((true, key) ∷ checks) h = (refl, rejected-Passed checks h)
rejected-Passed ((false, key) ∷ checks) h = cc

rejected-nil : (checks : List (Bool × Key)) → Passed checks → rejected checks ≡ []
rejected-nil [] p = refl
rejected-nil ((true, key) ∷ checks) p = rejected-nil checks p.1
rejected-nil ((false, key) ∷ checks) p = cc p.0

schema_errors-Passed :
    (t : Target) (r : RawConfig) → schema_errors t r ≡ [] → Passed (schema_checks t r)
unfolding schema_errors
schema_errors-Passed t r h = rejected-Passed (schema_checks t r) h

schema_errors-nil :
    (t : Target) (r : RawConfig) → Passed (schema_checks t r) → schema_errors t r ≡ []
unfolding schema_errors
schema_errors-nil t r p = rejected-nil (schema_checks t r) p

in_range_iff : (lo hi n : ℕ) → (in_range lo hi n ≡ true) ↔ ((lo ≤ n) × (n ≤ hi))
in_range_iff lo hi n = ground arith

leb_iff : (a b : ℕ) → (leb a b ≡ true) ↔ (a ≤ b)
leb_iff a b = ground arith

schema_checks-InRange :
    (t : Target) (r : RawConfig)
    → Passed (schema_checks t r)
    → InRange (with_defaults r) × HasKnownWords t r
unfolding schema_checks
schema_checks-InRange t r
      (p0, (p1, (p2, (p3, (p4, (p5, (p6, (p7, (p8, (p9, (p10, (p11, (p12, _))))))))))))) =
    (
      record {
        port = (in_range_iff _ _ _).0 p0;
        buffer_size = (leb_iff _ _).0 p1;
        time_sync_interval = (in_range_iff _ _ _).0 p2;
        sync_deadband = (in_range_iff _ _ _).0 p3;
        converge_fine = (in_range_iff _ _ _).0 p4;
        hard_resync_threshold = (in_range_iff _ _ _).0 p5;
        render_align_max = (leb_iff _ _).0 p11;
        stream_idle_timeout = (in_range_iff _ _ _).0 p12;
      },
      record {
        channel_mode = p6;
        phase_invert = p7;
        rate_lock = p8;
        pause_behavior = p9;
        sync_resilience = p10;
      },
    )

schema_checks-Passed :
    (t : Target) (r : RawConfig)
    → InRange (with_defaults r)
    → HasKnownWords t r
    → Passed (schema_checks t r)
unfolding schema_checks
schema_checks-Passed t r n k = (
  (in_range_iff _ _ _).1 n.port,
  (
    (leb_iff _ _).1 n.buffer_size,
    (
      (in_range_iff _ _ _).1 n.time_sync_interval,
      (
        (in_range_iff _ _ _).1 n.sync_deadband,
        (
          (in_range_iff _ _ _).1 n.converge_fine,
          (
            (in_range_iff _ _ _).1 n.hard_resync_threshold,
            (
              k.channel_mode,
              (
                k.phase_invert,
                (
                  k.rate_lock,
                  (
                    k.pause_behavior,
                    (
                      k.sync_resilience,
                      (
                        (leb_iff _ _).1 n.render_align_max,
                        ((in_range_iff _ _ _).1 n.stream_idle_timeout, tt),
                      ),
                    ),
                  ),
                ),
              ),
            ),
          ),
        ),
      ),
    ),
  ),
)

validate_schema-ok :
    (t : Target) (r : RawConfig)
    → schema_errors t r ≡ []
    → validate_schema t r ≡ ok (with_defaults r)
unfolding validate_schema
validate_schema-ok t r h = ground arith

config_schema-ok :
    (t : Target) (r : RawConfig) {c : ConfigType}
    → config_schema t r ≡ ok c
    → (schema_errors t r ≡ [])
      × (c ≡ with_defaults r)
      × IsOrdered (with_defaults r)
      × (t.is_esp32 ≡ true)
unfolding config_schema
config_schema-ok t r h = ground arith

config_schema-ordered :
    (t : Target) (r : RawConfig)
    → schema_errors t r ≡ []
    → IsOrdered (with_defaults r)
    → t.is_esp32 ≡ true
    → config_schema t r ≡ ok (with_defaults r)
unfolding config_schema
config_schema-ordered t r h o e = ground arith

-- Acceptance in the terms of the schema: every number lies in its range, every word belongs to
-- its enumeration, a rate lock names a bus of an S3, the three thresholds are ordered and the
-- chip is an ESP32; and then it is what the user wrote with the defaults put in.
pub config_schema-Accepted :
    (t : Target) (r : RawConfig) (c : ConfigType)
    → (config_schema t r ≡ ok c) ↔ (Accepted t r × (c ≡ with_defaults r))
config_schema-Accepted t r c = (
  λ h.
      let (accepted, same, ordered, chip) = config_schema-ok t r h in
      let (ranges, words) = schema_checks-InRange t r (schema_errors-Passed t r accepted) in
      ((ranges, words, ordered, chip), same),
  λ (accepted, same).
      config_schema-ordered t r
        (schema_errors-nil t r (schema_checks-Passed t r accepted.0 accepted.1)) accepted.2
        accepted.3
      ∙ ap ok (sym same),
)
