-- ===== src/Analyser/LogEvents/Parse.antt =====
-- scripts/i2s-skew.py: the loop of `parse_sync_events`. A line goes to the handler of the first
-- pattern that matches; the role, and the four patterns of the phases, do not end the search.
use Prim.Native.String.{String}
use esphome_snapcast.Base.{Option, none, some, List, [], ◌∷◌, ◌++◌}
use esphome_snapcast.Base.Float.{Float}
use esphome_snapcast.Analyser.LogEvents.Lines.{Stamp, tod, Line}
use esphome_snapcast.Analyser.LogEvents.Log.{
  phase_us, depth_us, ramp_ppm, crystal_ppm, Memory, Log, new_log,
}
use esphome_snapcast.Analyser.LogEvents.DelayLoop.{on_role, on_dl_oor, on_dl_loop, on_dl_state}
use esphome_snapcast.Analyser.LogEvents.Servo.{
  on_trim_window, on_trim_none, on_servo_param, on_servo_tune, on_rphase, add_first,
  on_split_inject, on_repair, on_seed_drain, on_seed_anchor, on_rsync, on_rpre,
}
use esphome_snapcast.Analyser.LogEvents.Marks.{
  Thresholds, on_trim_dbg, on_trim_dbg_off, on_sync_x, on_render_tag, on_phase_in, on_sync,
}

-- `m = RE.match(line)`, `if m: ...; continue`
abbrev pub match_or : {A B : Type 0} → Option A → (A → B) → B → B
match_or none handle otherwise = otherwise
match_or (some m) handle otherwise = handle m

module _ (fl : Float) (th : Thresholds fl.F) where
  open fl use {F}

  -- `match_temperature`
  abbrev pub on_temperature : Stamp × (String × F) → Log F → Log F
  on_temperature (at, (name, celsius)) log = record log {
    temps = log.temps ++ (tod at, (name, celsius)) ∷ [];
  }

  unfoldable pub last_patterns : Line F → Log F → Log F
  last_patterns l log =
      match_or l.trim_dbg (λ m. on_trim_dbg fl th m log)
        (match_or l.trim_dbg_off (λ m. on_trim_dbg_off fl th m log)
          (match_or l.sync_x (λ m. on_sync_x fl th m log)
            (match_or l.render_tag (λ m. on_render_tag fl th m log)
              (match_or l.phase_in (λ m. on_phase_in fl th m log)
                (match_or l.sync (λ m. on_sync fl th m log)
                  (match_or l.temperature (λ m. on_temperature m log) log))))))

  unfoldable pub middle_patterns : Line F → Log F → Log F
  middle_patterns l log =
      match_or l.split_inject (λ m. on_split_inject l.dev_t m log)
        (match_or l.repair (λ m. on_repair m log)
          (match_or l.seed_drain (λ m. on_seed_drain m log)
            (match_or l.seed_anchor (λ m. on_seed_anchor l.dev_t m log)
              (match_or l.rsync (λ m. on_rsync m log)
                (match_or l.rpre (λ m. on_rpre m log) (last_patterns l log))))))

  -- The loop over the four patterns, which ends at the first that matches.
  unfoldable pub phase_patterns : Line F → Log F → Log F
  phase_patterns l log =
      add_first l.dev_t
        ((phase_us, l.phase)
          ∷ (depth_us, l.depth)
          ∷ (ramp_ppm, l.ramp)
          ∷ (crystal_ppm, l.crystal)
          ∷ [])
        log

  unfoldable pub servo_patterns : Line F → Log F → Log F
  servo_patterns l log =
      match_or l.servo_param (λ m. on_servo_param m log)
        (match_or l.servo_tune (λ m. on_servo_tune m log)
          (match_or l.rphase (λ m. on_rphase l.dev_t m log)
            (middle_patterns l (phase_patterns l log))))

  unfoldable pub first_patterns : Line F → Log F → Log F
  first_patterns l log =
      match_or l.trim_window (λ m. on_trim_window l.dev_t m log)
        (match_or l.trim_none (λ m. on_trim_none l.dev_t m log)
          (match_or l.dl_oor (λ m. on_dl_oor m log)
            (match_or l.dl_loop (λ m. on_dl_loop l.dev_t m log)
              (match_or l.dl_state (λ m. on_dl_state th.dl_event_us m log)
                (servo_patterns l log)))))

  unfoldable pub parse_line : Line F → Log F → Log F
  parse_line l log = first_patterns l (on_role l.role log)

  unfoldable pub parse_lines : List (Line F) → Log F → Log F
  parse_lines [] log = log
  parse_lines (l ∷ ls) log = parse_lines ls (parse_line l log)

  -- `parse_sync_events`, on the lines that one call reads and the state of the call before
  unfoldable pub parse_sync_events : List (Line F) → Memory F → Log F
  parse_sync_events lines memory = parse_lines lines (new_log memory)
