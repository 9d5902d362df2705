-- ===== src/Analyser/LogEvents/Marks.antt =====
-- scripts/i2s-skew.py: the handlers of the lines about the trim, the consensus, the render phase and
-- the sync error. The thresholds are those of the parameters of `parse_sync_events`.
use Prim.Native.String.{String}
use esphome_snapcast.Base.{
  ℕ, zero, suc, ◌-◌, Bool, ◌||◌, not, Option, none, some, List, [], ◌∷◌, ltb, leb, ◌==◌,
  if◌then◌else◌,
}
use esphome_snapcast.Base.Int.{ℤ, pos, ◌-ℤ◌, abs_ℤ, dist_ℤ}
use esphome_snapcast.Base.Float.{Float}
use esphome_snapcast.Analyser.LogEvents.Lines.{Stamp, tod, TrimDbg, SyncX, RenderTag, PhaseIn, Sync}
use esphome_snapcast.Analyser.LogEvents.Log.{
  StopReason, split_hold, gated, no_chunks, lock_unavailable, trim_stop, trim_rail, trim_change,
  pipeline_change, consensus_change, render_unknown, ledger_bias, peer_phase, sync_error, corrected,
  hard_resync, Event, Log, mark,
}

pub record Thresholds (F : Type 0) : Type 0 where
  pub trim_ppm : F
  pub sync_us : ℕ
  pub peak_us : ℕ
  pub pipe_ms : ℕ
  pub rendertag_us : ℕ
  pub phasein_us : ℕ
  pub dl_event_us : ℕ

abbrev pub mark_if : {F : Type 0} → Bool → ℕ → Event F → Log F → Log F
mark_if test t event log = if test then mark t event log else log

-- The peer whose phase is largest, if it is not 0; the first one on a tie.
unfoldable pub worst_from : Option (String × ℤ) → ℕ → List (String × ℤ) → Option (String × ℤ)
worst_from worst size [] = worst
worst_from worst size (peer ∷ peers) =
    let larger = ltb size (abs_ℤ peer.1) in
    worst_from (if larger then some peer else worst) (if larger then abs_ℤ peer.1 else size) peers

unfoldable pub stop_reason : ℕ → ℕ → StopReason
stop_reason zero zero = no_chunks
stop_reason zero (suc g) = gated
stop_reason (suc h) g = split_hold

module _ (fl : Float) (th : Thresholds fl.F) where
  open fl use {F, sub, abs, le}

  -- A trim that moved by the threshold is an event; the trim is remembered either way.
  abbrev pub trim_event : ℕ → F → Option F → Log F → Log F
  trim_event t trim none log = log
  trim_event t trim (some last) log =
      mark_if (le th.trim_ppm (abs (sub trim last))) t (trim_change last trim) log

  unfoldable pub note_trim : ℕ → F → Log F → Log F
  note_trim t trim log =
      let marked = trim_event t trim log.memory.trim log in
      record marked { memory = record marked.memory { trim = some trim } }

  abbrev pub pipe_event : ℕ → ℤ → Option ℤ → Log F → Log F
  pipe_event t pipe none log = log
  pipe_event t pipe (some last) log =
      mark_if (leb th.pipe_ms (dist_ℤ pipe last)) t (pipeline_change last pipe) log

  unfoldable pub note_pipe : ℕ → ℤ → Log F → Log F
  note_pipe t pipe log =
      let marked = pipe_event t pipe log.memory.pipe log in
      record marked { memory = record marked.memory { pipe = some pipe } }

  -- `td`: no samples is a stop, with its reason; otherwise a railed trim is marked.
  abbrev pub steering : ℕ → TrimDbg F → ℕ → Log F → Log F
  steering t td zero log = mark t (trim_stop (stop_reason td.split_hold td.gated)) log
  steering t td (suc n) log = mark_if (not (td.railed == 0)) t (trim_rail td.railed td.samples) log

  unfoldable pub on_trim_dbg : TrimDbg F → Log F → Log F
  unfolding note_trim
  on_trim_dbg td log = let t = tod td.at in note_trim t td.applied (steering t td td.samples log)

  -- `to`
  unfoldable pub on_trim_dbg_off : Stamp → Log F → Log F
  on_trim_dbg_off at log = mark (tod at) (trim_stop lock_unavailable) log

  abbrev pub consensus_event : ℕ → ℕ → Option ℕ → Log F → Log F
  consensus_event t n none log = log
  consensus_event t n (some last) log = mark_if (not (n == last)) t (consensus_change last n) log

  unfoldable pub note_consensus : ℕ → Option ℕ → Log F → Log F
  note_consensus t none log = log
  note_consensus t (some n) log =
      let marked = consensus_event t n log.memory.consensus log in
      record marked { memory = record marked.memory { consensus = some n } }

  -- `sx`
  unfoldable pub on_sync_x : SyncX → Log F → Log F
  unfolding note_pipe note_consensus
  on_sync_x sx log = let t = tod sx.at in note_consensus t sx.consensus (note_pipe t sx.pipe log)

  -- `rt`
  abbrev pub render_event : ℕ → ℕ → Option ℤ → Option ℤ → Log F → Log F
  render_event t tags none inferred log = mark t (render_unknown tags) log
  render_event t tags (some measured) none log = log
  render_event t tags (some measured) (some inferred) log =
      let gap = measured -ℤ inferred in
      mark_if (leb th.rendertag_us (abs_ℤ gap)) t (ledger_bias gap) log

  unfoldable pub on_render_tag : RenderTag → Log F → Log F
  on_render_tag rt log = render_event (tod rt.at) rt.tags rt.measured rt.inferred log

  -- `pi`
  abbrev pub peer_event : ℕ → ℤ → Option (String × ℤ) → Log F → Log F
  peer_event t group none log = log
  peer_event t group (some (mac, d)) log =
      mark_if (leb th.phasein_us (abs_ℤ d)) t (peer_phase mac d group) log

  unfoldable pub on_phase_in : PhaseIn → Log F → Log F
  unfolding worst_from
  on_phase_in pi log = peer_event (tod pi.at) pi.group (worst_from none 0 pi.peers) log

  abbrev pub or_zero : Option ℤ → ℤ
  or_zero none = pos 0
  or_zero (some n) = n

  abbrev pub note_pipe_if : ℕ → Option ℤ → Log F → Log F
  note_pipe_if t none log = log
  note_pipe_if t (some pipe) log = note_pipe t pipe log

  abbrev pub note_trim_if : ℕ → Option F → Log F → Log F
  note_trim_if t none log = log
  note_trim_if t (some trim) log = note_trim t trim log

  -- A count of hard resyncs that grew is an event, one that fell is a reboot and none.
  abbrev pub resync_event : ℕ → ℕ → Option ℕ → Log F → Log F
  resync_event t n none log = log
  resync_event t n (some last) log = mark_if (ltb last n) t (hard_resync (n - last)) log

  unfoldable pub note_resync : ℕ → ℕ → Log F → Log F
  note_resync t n log =
      let marked = resync_event t n log.memory.resync log in
      record marked { memory = record marked.memory { resync = some n } }

  -- `m`
  unfoldable pub on_sync : Sync F → Log F → Log F
  unfolding note_resync
  on_sync m log =
      let t = tod m.at in
      let med = or_zero m.median in
      let peak = or_zero m.peak in
      let large = leb th.sync_us (abs_ℤ med) || leb th.peak_us (abs_ℤ peak) in
      let stepped = not (m.down == 0) || not (m.up == 0) in
      note_trim_if t m.trim (
        note_resync t m.resyncs (
          mark_if stepped t (corrected m.down m.up)
            (note_pipe_if t m.pipe (mark_if large t (sync_error med peak) log))))
