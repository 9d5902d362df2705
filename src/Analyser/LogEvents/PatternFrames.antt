-- ===== src/Analyser/LogEvents/PatternFrames.antt =====
-- scripts/i2s-skew.py: a whole line leaves the role to its own handler.
use esphome_snapcast.Base.{refl, [], ◌∷◌}
use esphome_snapcast.Base.Float.{Float}
use esphome_snapcast.Analyser.LogEvents.Lines.{Line}
use esphome_snapcast.Analyser.LogEvents.Log.{phase_us, depth_us, ramp_ppm, crystal_ppm, Log}
use esphome_snapcast.Analyser.LogEvents.Servo.{
  on_trim_window, on_trim_none, add_first, on_split_inject, on_repair, on_seed_drain,
  on_seed_anchor, on_rsync, on_rpre,
}
use esphome_snapcast.Analyser.LogEvents.Marks.{Thresholds}
use esphome_snapcast.Analyser.LogEvents.Parse.{
  last_patterns, middle_patterns, phase_patterns, servo_patterns, first_patterns,
}
use esphome_snapcast.Analyser.LogEvents.Frames.{
  SameRole, on_dl_oor-SameRole, on_dl_loop-SameRole, on_dl_state-SameRole, on_servo_tune-SameRole,
  on_servo_param-SameRole, same_role, on_rphase-SameRole, add_first-SameRole, trans-SameRole,
  match_or-SameRole,
}
use esphome_snapcast.Analyser.LogEvents.MarkFrames.{
  on_trim_dbg-SameRole, on_trim_dbg_off-SameRole, on_sync_x-SameRole, on_render_tag-SameRole,
  on_phase_in-SameRole, on_sync-SameRole,
}

module _ (fl : Float) (th : Thresholds fl.F) where
  open fl use {F}

  last_patterns-SameRole : (l : Line F) (log : Log F) → SameRole log (last_patterns fl th l log)
  unfolding last_patterns
  last_patterns-SameRole l log =
      match_or-SameRole l.trim_dbg _ log _ (λ m. on_trim_dbg-SameRole fl th m log)
        (match_or-SameRole l.trim_dbg_off _ log _ (λ m. on_trim_dbg_off-SameRole fl th m log)
          (match_or-SameRole l.sync_x _ log _ (λ m. on_sync_x-SameRole fl th m log)
            (match_or-SameRole l.render_tag _ log _ (λ m. on_render_tag-SameRole fl th m log)
              (match_or-SameRole l.phase_in _ log _ (λ m. on_phase_in-SameRole fl th m log)
                (match_or-SameRole l.sync _ log _ (λ m. on_sync-SameRole fl th m log)
                  (match_or-SameRole l.temperature _ log _
                    (λ m. record { role = refl; marked = refl }) (same_role log)))))))

  middle_patterns-SameRole : (l : Line F) (log : Log F) → SameRole log (middle_patterns fl th l log)
  unfolding middle_patterns on_split_inject on_repair on_seed_drain on_seed_anchor on_rsync on_rpre
  middle_patterns-SameRole l log =
      match_or-SameRole l.split_inject _ log _ (λ m. record { role = refl; marked = refl })
        (match_or-SameRole l.repair _ log _ (λ m. record { role = refl; marked = refl })
          (match_or-SameRole l.seed_drain _ log _ (λ m. record { role = refl; marked = refl })
            (match_or-SameRole l.seed_anchor _ log _ (λ m. record { role = refl; marked = refl })
              (match_or-SameRole l.rsync _ log _ (λ m. record { role = refl; marked = refl })
                (match_or-SameRole l.rpre _ log _ (λ m. record { role = refl; marked = refl })
                  (last_patterns-SameRole l log))))))

  phases_then-SameRole :
      (l : Line F) (log : Log F)
      → SameRole log (middle_patterns fl th l (phase_patterns fl th l log))
  unfolding phase_patterns
  phases_then-SameRole l log =
      let series =
        (phase_us, l.phase)
        ∷ (depth_us, l.depth)
        ∷ (ramp_ppm, l.ramp)
        ∷ (crystal_ppm, l.crystal)
        ∷ [] in
      trans-SameRole log (add_first l.dev_t series log)
        (middle_patterns fl th l (add_first l.dev_t series log))
        (add_first-SameRole l.dev_t series log)
        (middle_patterns-SameRole l (add_first l.dev_t series log))

  servo_patterns-SameRole : (l : Line F) (log : Log F) → SameRole log (servo_patterns fl th l log)
  unfolding servo_patterns
  servo_patterns-SameRole l log =
      match_or-SameRole l.servo_param _ log _ (λ m. on_servo_param-SameRole m log)
        (match_or-SameRole l.servo_tune _ log _ (λ m. on_servo_tune-SameRole m log)
          (match_or-SameRole l.rphase _ log _ (λ m. on_rphase-SameRole l.dev_t m log)
            (phases_then-SameRole l log)))

  pub first_patterns-SameRole :
      (l : Line F) (log : Log F) → SameRole log (first_patterns fl th l log)
  unfolding first_patterns on_trim_window on_trim_none
  first_patterns-SameRole l log =
      match_or-SameRole l.trim_window _ log _ (λ m. record { role = refl; marked = refl })
        (match_or-SameRole l.trim_none _ log _ (λ m. record { role = refl; marked = refl })
          (match_or-SameRole l.dl_oor _ log _ (λ m. on_dl_oor-SameRole m log)
            (match_or-SameRole l.dl_loop _ log _ (λ m. on_dl_loop-SameRole l.dev_t m log)
              (match_or-SameRole l.dl_state _ log _ (λ m. on_dl_state-SameRole th.dl_event_us m log)
                (servo_patterns-SameRole l log)))))
