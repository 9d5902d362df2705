-- ===== src/Analyser/LogEvents/MarkFrames.antt =====
-- scripts/i2s-skew.py: the handlers of `Marks` leave the role to its own handler.
use Prim.Native.String.{String}
use esphome_snapcast.Base.{ℕ, zero, suc, ◌-◌, not, leb, ltb, ◌==◌, ◌||◌, refl, Option, none, some}
use esphome_snapcast.Base.Int.{ℤ, dist_ℤ, abs_ℤ, ◌-ℤ◌}
use esphome_snapcast.Base.Float.{Float}
use esphome_snapcast.Analyser.LogEvents.Lines.{Stamp, tod, TrimDbg, SyncX, RenderTag, PhaseIn, Sync}
use esphome_snapcast.Analyser.LogEvents.Log.{
  trim_change, pipeline_change, consensus_change, hard_resync, trim_stop, trim_rail,
  lock_unavailable, sync_error, corrected, render_unknown, ledger_bias, peer_phase, Log,
}
use esphome_snapcast.Analyser.LogEvents.Marks.{
  Thresholds, mark_if, trim_event, pipe_event, consensus_event, resync_event, note_pipe_if,
  note_trim_if, steering, render_event, peer_event, worst_from, stop_reason, or_zero, note_trim,
  note_pipe, note_consensus, note_resync, on_trim_dbg, on_trim_dbg_off, on_sync_x, on_render_tag,
  on_phase_in, on_sync,
}
use esphome_snapcast.Analyser.LogEvents.Frames.{
  role_events, SameRole, mark-SameRole, same_role, trans-SameRole, mark_if-SameRole,
}

module _ (fl : Float) (th : Thresholds fl.F) where
  open fl use {F}

  trim_event-SameRole :
      (t : ℕ) (trim : F) (last : Option F) (log : Log F)
      → SameRole log (trim_event fl th t trim last log)
  unfolding role_events
  trim_event-SameRole t trim none log = same_role log
  trim_event-SameRole t trim (some last) log =
      mark_if-SameRole (fl.le th.trim_ppm (fl.abs (fl.sub trim last))) t (trim_change last trim) log
        refl

  note_trim-SameRole : (t : ℕ) (trim : F) (log : Log F) → SameRole log (note_trim fl th t trim log)
  unfolding note_trim
  note_trim-SameRole t trim log =
      let same = trim_event-SameRole t trim log.memory.trim log in
      record { role = same.role; marked = same.marked }

  pipe_event-SameRole :
      (t : ℕ) (pipe : ℤ) (last : Option ℤ) (log : Log F)
      → SameRole log (pipe_event fl th t pipe last log)
  unfolding role_events
  pipe_event-SameRole t pipe none log = same_role log
  pipe_event-SameRole t pipe (some last) log =
      mark_if-SameRole (leb th.pipe_ms (dist_ℤ pipe last)) t (pipeline_change last pipe) log refl

  note_pipe-SameRole : (t : ℕ) (pipe : ℤ) (log : Log F) → SameRole log (note_pipe fl th t pipe log)
  unfolding note_pipe
  note_pipe-SameRole t pipe log =
      let same = pipe_event-SameRole t pipe log.memory.pipe log in
      record { role = same.role; marked = same.marked }

  consensus_event-SameRole :
      (t n : ℕ) (last : Option ℕ) (log : Log F) → SameRole log (consensus_event fl th t n last log)
  unfolding role_events
  consensus_event-SameRole t n none log = same_role log
  consensus_event-SameRole t n (some last) log =
      mark_if-SameRole (not (n == last)) t (consensus_change last n) log refl

  note_consensus-SameRole :
      (t : ℕ) (n : Option ℕ) (log : Log F) → SameRole log (note_consensus fl th t n log)
  unfolding note_consensus
  note_consensus-SameRole t none log = same_role log
  note_consensus-SameRole t (some n) log =
      let same = consensus_event-SameRole t n log.memory.consensus log in
      record { role = same.role; marked = same.marked }

  resync_event-SameRole :
      (t n : ℕ) (last : Option ℕ) (log : Log F) → SameRole log (resync_event fl th t n last log)
  unfolding role_events
  resync_event-SameRole t n none log = same_role log
  resync_event-SameRole t n (some last) log =
      mark_if-SameRole (ltb last n) t (hard_resync (n - last)) log refl

  note_resync-SameRole : (t n : ℕ) (log : Log F) → SameRole log (note_resync fl th t n log)
  unfolding note_resync
  note_resync-SameRole t n log =
      let same = resync_event-SameRole t n log.memory.resync log in
      record { role = same.role; marked = same.marked }

  steering-SameRole :
      (t : ℕ) (m : TrimDbg F) (n : ℕ) (log : Log F) → SameRole log (steering fl th t m n log)
  unfolding role_events
  steering-SameRole t m zero log =
      mark-SameRole t (trim_stop (stop_reason m.split_hold m.gated)) log refl
  steering-SameRole t m (suc n) log =
      mark_if-SameRole (not (m.railed == 0)) t (trim_rail m.railed m.samples) log refl

  pub on_trim_dbg-SameRole : (m : TrimDbg F) (log : Log F) → SameRole log (on_trim_dbg fl th m log)
  unfolding on_trim_dbg
  on_trim_dbg-SameRole m log =
      let steered = steering fl th (tod m.at) m m.samples log in
      trans-SameRole log steered (note_trim fl th (tod m.at) m.applied steered)
        (steering-SameRole (tod m.at) m m.samples log)
        (note_trim-SameRole (tod m.at) m.applied steered)

  pub on_trim_dbg_off-SameRole :
      (at : Stamp) (log : Log F) → SameRole log (on_trim_dbg_off fl th at log)
  unfolding on_trim_dbg_off role_events
  on_trim_dbg_off-SameRole at log = mark-SameRole (tod at) (trim_stop lock_unavailable) log refl

  pub on_sync_x-SameRole : (m : SyncX) (log : Log F) → SameRole log (on_sync_x fl th m log)
  unfolding on_sync_x
  on_sync_x-SameRole m log =
      let piped = note_pipe fl th (tod m.at) m.pipe log in
      trans-SameRole log piped (note_consensus fl th (tod m.at) m.consensus piped)
        (note_pipe-SameRole (tod m.at) m.pipe log)
        (note_consensus-SameRole (tod m.at) m.consensus piped)

  render_event-SameRole :
      (t tags : ℕ) (measured inferred : Option ℤ) (log : Log F)
      → SameRole log (render_event fl th t tags measured inferred log)
  unfolding role_events
  render_event-SameRole t tags none inferred log = mark-SameRole t (render_unknown tags) log refl
  render_event-SameRole t tags (some measured) none log = same_role log
  render_event-SameRole t tags (some measured) (some inferred) log =
      mark_if-SameRole (leb th.rendertag_us (abs_ℤ (measured -ℤ inferred))) t
        (ledger_bias (measured -ℤ inferred)) log refl

  pub on_render_tag-SameRole :
      (m : RenderTag) (log : Log F) → SameRole log (on_render_tag fl th m log)
  unfolding on_render_tag
  on_render_tag-SameRole m log = render_event-SameRole (tod m.at) m.tags m.measured m.inferred log

  peer_event-SameRole :
      (t : ℕ) (group : ℤ) (worst : Option (String × ℤ)) (log : Log F)
      → SameRole log (peer_event fl th t group worst log)
  unfolding role_events
  peer_event-SameRole t group none log = same_role log
  peer_event-SameRole t group (some (mac, d)) log =
      mark_if-SameRole (leb th.phasein_us (abs_ℤ d)) t (peer_phase mac d group) log refl

  pub on_phase_in-SameRole : (m : PhaseIn) (log : Log F) → SameRole log (on_phase_in fl th m log)
  unfolding on_phase_in
  on_phase_in-SameRole m log =
      peer_event-SameRole (tod m.at) m.group (worst_from none 0 m.peers) log

  note_pipe_if-SameRole :
      (t : ℕ) (pipe : Option ℤ) (log log' : Log F)
      → SameRole log log'
      → SameRole log (note_pipe_if fl th t pipe log')
  note_pipe_if-SameRole t none log log' same = same
  note_pipe_if-SameRole t (some pipe) log log' same =
      trans-SameRole log log' (note_pipe fl th t pipe log') same (note_pipe-SameRole t pipe log')

  note_trim_if-SameRole :
      (t : ℕ) (trim : Option F) (log log' : Log F)
      → SameRole log log'
      → SameRole log (note_trim_if fl th t trim log')
  note_trim_if-SameRole t none log log' same = same
  note_trim_if-SameRole t (some trim) log log' same =
      trans-SameRole log log' (note_trim fl th t trim log') same (note_trim-SameRole t trim log')

  pub on_sync-SameRole : (m : Sync F) (log : Log F) → SameRole log (on_sync fl th m log)
  unfolding on_sync
  on_sync-SameRole m log =
      let t = tod m.at in
      let med = or_zero fl th m.median in
      let peak = or_zero fl th m.peak in
      let large = leb th.sync_us (abs_ℤ med) || leb th.peak_us (abs_ℤ peak) in
      let stepped = not (m.down == 0) || not (m.up == 0) in
      let log1 = mark_if large t (sync_error med peak) log in
      let log2 = note_pipe_if fl th t m.pipe log1 in
      let log3 = mark_if stepped t (corrected m.down m.up) log2 in
      let log4 = note_resync fl th t m.resyncs log3 in
      let same1 : SameRole log log1 =
        mark_if-SameRole large t (sync_error med peak) log (unfold role_events in refl) in
      let same2 = note_pipe_if-SameRole t m.pipe log log1 same1 in
      let same3 =
        trans-SameRole log log2 log3 same2
          (mark_if-SameRole stepped t (corrected m.down m.up) log2 (unfold role_events in refl)) in
      note_trim_if-SameRole t m.trim log log4
        (trans-SameRole log log3 log4 same3 (note_resync-SameRole t m.resyncs log3))
