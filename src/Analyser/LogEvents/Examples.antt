-- ===== src/Analyser/LogEvents/Examples.antt =====
-- scripts/i2s-skew.py: logs at concrete inputs.
use Prim.Native.String.{String}
use esphome_snapcast.Base.{◌≡◌, refl, ◌⊎◌, none, some, inl, arith, List, [], ◌∷◌, ◌++◌, map}
use esphome_snapcast.Base.Int.{ℤ, pos, negsuc, ◌-ℤ◌}
use esphome_snapcast.Base.Float.{whole}
use esphome_snapcast.Analyser.LogEvents.Lines.{Stamp, tod, RPre, Line}
use esphome_snapcast.Analyser.LogEvents.Log.{Seed, Burst, Memory, new_memory, new_log}
use esphome_snapcast.Analyser.LogEvents.DelayLoop.{on_role, mode_of, clause, squeeze, prefix}
use esphome_snapcast.Analyser.LogEvents.Servo.{
  on_rpre, on_seed_anchor, on_seed_drain, drain_last, add_first,
}
use esphome_snapcast.Analyser.LogEvents.Marks.{Thresholds}
use esphome_snapcast.Analyser.LogEvents.Parse.{
  parse_sync_events, parse_lines, parse_line, first_patterns, servo_patterns, phase_patterns,
  middle_patterns,
}
use esphome_snapcast.Analyser.LogEvents.Frames.{role_events}
use esphome_snapcast.Analyser.LogEvents.Roles.{
  changes, last_role, roles_in, parse_sync_events-changes,
}
use esphome_snapcast.Analyser.LogEvents.Resume.{
  Bytes, start_position, guarded, unread, lines_of, read_log, poll_log,
}
use esphome_snapcast.Analyser.LogEvents.Polls.{Change, grows, unreadable, replaced, file, snapshots}
use esphome_snapcast.Analyser.LogEvents.Tails.{IsTail, AreLines, poll_log-AreRead}
use esphome_snapcast.Analyser.LogEvents.Bursts.{HaveLength, AreRows, times_of, on_rpre-AreRows}

abbrev noon : Stamp
noon = record { hours = 12; minutes = 0; seconds = 1; fraction = 250; digits = 3 }

time_of_noon : tod noon ≡ 43_201_250_000
unfolding tod
time_of_noon = refl

first_clause : mode_of "setpoint  changed (+12 us)" ≡ "setpoint changed"
unfolding mode_of clause squeeze prefix
first_clause = refl

abbrev nothing : Line ℤ
nothing = record {
  role = none;
  dev_t = none;
  trim_window = none;
  trim_none = none;
  dl_oor = none;
  dl_loop = none;
  dl_state = none;
  servo_param = none;
  servo_tune = none;
  rphase = none;
  phase = none;
  depth = none;
  ramp = none;
  crystal = none;
  split_inject = none;
  repair = none;
  seed_drain = none;
  seed_anchor = none;
  rsync = none;
  rpre = none;
  trim_dbg = none;
  trim_dbg_off = none;
  sync_x = none;
  render_tag = none;
  phase_in = none;
  sync = none;
  temperature = none;
}

abbrev with_role : String → Line ℤ
with_role letter = record nothing { role = some (noon, letter) }

abbrev defaults : Thresholds ℤ
defaults = record {
  trim_ppm = pos 5;
  sync_us = 200;
  peak_us = 600;
  pipe_ms = 25;
  rendertag_us = 500;
  phasein_us = 1000;
  dl_event_us = 5_000_000;
}

abbrev three_roles : List (Line ℤ)
three_roles = with_role "s" ∷ with_role "s" ∷ with_role "c" ∷ []

parse_sync_events-changes_example :
    let log = parse_sync_events whole defaults three_roles new_memory in
    (role_events log.events ≡ changes none (roles_in three_roles))
    × (log.memory.role ≡ last_role none (roles_in three_roles))
parse_sync_events-changes_example = parse_sync_events-changes whole defaults three_roles new_memory

abbrev burst : RPre
burst = record {
  at = noon;
  first_seq = pos 80;
  t0 = pos 1000;
  dts = some (pos 26 ∷ pos 27 ∷ []);
  errs = some (pos 1 ∷ pos 2 ∷ []);
  meds = some (pos 3 ∷ pos 4 ∷ []);
  rings = some (pos 5 ∷ pos 6 ∷ []);
  drops = some (pos 0 ∷ pos 0 ∷ []);
}

on_rpre-AreRows_example :
    let log = new_log {F = ℤ} new_memory in
    ((HaveLength 2
          (pos 1 ∷ pos 2 ∷ [])
          (pos 3 ∷ pos 4 ∷ [])
          (pos 5 ∷ pos 6 ∷ [])
          (pos 0 ∷ pos 0 ∷ [])
        → ⊥)
      × ((on_rpre burst log).rsyncs ≡ log.rsyncs))
    ⊎ ((rows : List Burst) × HaveLength 2
          (pos 1 ∷ pos 2 ∷ [])
          (pos 3 ∷ pos 4 ∷ [])
          (pos 5 ∷ pos 6 ∷ [])
          (pos 0 ∷ pos 0 ∷ [])
        × ((on_rpre burst log).rsyncs ≡ log.rsyncs ++ rows)
        × AreRows
            (pos 0 -ℤ pos 80)
            (times_of (pos 1000) (pos 26 ∷ pos 27 ∷ []))
            (pos 26 ∷ pos 27 ∷ [])
            (pos 1 ∷ pos 2 ∷ [])
            (pos 3 ∷ pos 4 ∷ [])
            (pos 5 ∷ pos 6 ∷ [])
            (pos 0 ∷ pos 0 ∷ [])
            rows)
on_rpre-AreRows_example =
    on_rpre-AreRows {F = ℤ} burst (new_log new_memory) (pos 26 ∷ pos 27 ∷ []) (pos 1 ∷ pos 2 ∷ [])
      (pos 3 ∷ pos 4 ∷ []) (pos 5 ∷ pos 6 ∷ []) (pos 0 ∷ pos 0 ∷ [])

-- A drain line that comes in the call behind its anchor's is lost: the seeds are those of one call.
abbrev anchor_line : Line ℤ
anchor_line = record nothing {
  seed_anchor = some (record { at = noon; latency = 900; age = pos 3; frames = pos 441 });
}

abbrev drain_line : Line ℤ
drain_line = record nothing { seed_drain = some (negsuc 7) }

drained_in_one_call :
    map
      (λ (s : Seed). s.drained)
      (parse_sync_events whole defaults (anchor_line ∷ drain_line ∷ []) new_memory).seeds
    ≡ some (negsuc 7) ∷ []
unfolding parse_sync_events parse_lines parse_line first_patterns servo_patterns phase_patterns
    middle_patterns on_role on_seed_anchor on_seed_drain drain_last add_first
drained_in_one_call = refl

lost_in_two_calls :
    (memory : Memory ℤ) → (parse_sync_events whole defaults (drain_line ∷ []) memory).seeds ≡ []
unfolding parse_sync_events parse_lines parse_line first_patterns servo_patterns phase_patterns
    middle_patterns on_role on_seed_anchor on_seed_drain drain_last add_first
lost_in_two_calls memory = refl

abbrev rotations : List Change
rotations = grows (98 ∷ 10 ∷ []) ∷ unreadable ∷ replaced 2 (99 ∷ 10 ∷ 100 ∷ 10 ∷ []) ∷ []

poll_log-AreRead_example :
    let read =
      (poll_log 3 start_position
        (some (file 1 (97 ∷ 10 ∷ [])) ∷ snapshots 1 (97 ∷ 10 ∷ []) rotations)).0 in
    (text : Bytes) × IsTail 3 (97 ∷ 10 ∷ []) text × AreLines 3 text rotations read
poll_log-AreRead_example =
    poll_log-AreRead 3 1 (97 ∷ 10 ∷ []) rotations (omega arith) refl
      (refl, (refl, omega arith, inl (omega arith), tt))

-- A line that is polled while it is written is read as two.
torn_line :
    (poll_log 0 start_position (some (file 1 (97 ∷ [])) ∷ some (file 1 (97 ∷ 98 ∷ 10 ∷ [])) ∷ [])).0
    ≡ (97 ∷ []) ∷ (98 ∷ 10 ∷ []) ∷ []
unfolding poll_log read_log guarded unread lines_of
torn_line = refl
