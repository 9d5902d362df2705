-- ===== src/Analyser/LogEvents/Lines.antt =====
-- scripts/i2s-skew.py: what the patterns of `parse_sync_events` match in one line of a log, each
-- group as the value that the handler makes of it. A number with a decimal point is a float.
use Prim.Native.String.{String}
use esphome_snapcast.Base.{ℕ, ◌+◌, ◌*◌, ◌/◌, ◌^◌, Option, List}
use esphome_snapcast.Base.Int.{ℤ}

-- `[hh:mm:ss.fff]`, with the number of digits behind the point.
pub record Stamp : Type 0 where
  pub hours : ℕ
  pub minutes : ℕ
  pub seconds : ℕ
  pub fraction : ℕ
  pub digits : ℕ

-- The time of day, in microseconds; the logs have three digits.
unfoldable pub tod : Stamp → ℕ
tod t =
    (t.hours * 3600 + t.minutes * 60 + t.seconds) * 1_000_000
    + t.fraction * 1_000_000 / 10 ^ t.digits

-- A number that the firmware may report as unknown, or that does not read.
pub data Token (F : Type 0) : Type 0 where
  unknown unreadable : Token F
  number : F → Token F

-- `DLLOOP_RE`
pub record DlLoop (F : Type 0) : Type 0 where
  pub at : Stamp
  pub err : F
  pub trim : Option F
  pub int : Option F

-- `DL_STATE_RE`, and `DL_INTEGRAL_RE` on its text
pub record DlState (F : Type 0) : Type 0 where
  pub at : Stamp
  pub text : String
  pub integral : Option F

-- `RPHASE_RE`
pub record RPhase (F : Type 0) : Type 0 where
  pub at : Stamp
  pub gate : Token F
  pub plot : Option (Token F)

-- `SEEDANCHOR_RE`
pub record SeedAnchor : Type 0 where
  pub at : Stamp
  pub latency : ℕ
  pub age : ℤ
  pub frames : ℤ

-- `RSYNC_RE`
pub record RSync : Type 0 where
  pub at : Stamp
  pub seq : ℤ
  pub t : ℤ
  pub err : ℤ
  pub med : ℤ
  pub ring : ℤ
  pub drops : ℤ

-- `RPRE_RE`; a column is missing where one of its numbers does not read.
pub record RPre : Type 0 where
  pub at : Stamp
  pub first_seq : ℤ
  pub t0 : ℤ
  pub dts : Option (List ℤ)
  pub errs : Option (List ℤ)
  pub meds : Option (List ℤ)
  pub rings : Option (List ℤ)
  pub drops : Option (List ℤ)

-- `TRIMDBG_RE`
pub record TrimDbg (F : Type 0) : Type 0 where
  pub at : Stamp
  pub applied : F
  pub samples : ℕ
  pub railed : ℕ
  pub split_hold : ℕ
  pub gated : ℕ

-- `SYNCX_RE`, and the size of the consensus by `SYNCX_TSF_RE`
pub record SyncX : Type 0 where
  pub at : Stamp
  pub pipe : ℤ
  pub consensus : Option ℕ

-- `RENDERTAG_RE`; `none` is `unknown`.
pub record RenderTag : Type 0 where
  pub at : Stamp
  pub measured : Option ℤ
  pub inferred : Option ℤ
  pub tags : ℕ

-- `PHASEIN_RE`, with the peers that `PHASEIN_PEER_RE` finds
pub record PhaseIn : Type 0 where
  pub at : Stamp
  pub peers : List (String × ℤ)
  pub group : ℤ

-- `SYNC_RE`, and the three searches behind it
pub record Sync (F : Type 0) : Type 0 where
  pub at : Stamp
  pub down : ℕ
  pub up : ℕ
  pub resyncs : ℕ
  pub trim : Option F
  pub median : Option ℤ
  pub peak : Option ℤ
  pub pipe : Option ℤ

-- A line: for each pattern its match, if it matches.
pub record Line (F : Type 0) : Type 0 where
  pub role : Option (Stamp × String)
  pub dev_t : Option ℕ
  pub trim_window : Option (Stamp × (F × F))
  pub trim_none : Option (Stamp × F)
  pub dl_oor : Option (Stamp × ℤ)
  pub dl_loop : Option (DlLoop F)
  pub dl_state : Option (DlState F)
  pub servo_param : Option (Stamp × (String × String))
  pub servo_tune : Option (Stamp × String)
  pub rphase : Option (RPhase F)
  pub phase : Option (Stamp × F)
  pub depth : Option (Stamp × F)
  pub ramp : Option (Stamp × F)
  pub crystal : Option (Stamp × F)
  pub split_inject : Option (Stamp × ℤ)
  pub repair : Option (Stamp × ℤ)
  pub seed_drain : Option ℤ
  pub seed_anchor : Option SeedAnchor
  pub rsync : Option RSync
  pub rpre : Option RPre
  pub trim_dbg : Option (TrimDbg F)
  pub trim_dbg_off : Option Stamp
  pub sync_x : Option SyncX
  pub render_tag : Option RenderTag
  pub phase_in : Option PhaseIn
  pub sync : Option (Sync F)
  pub temperature : Option (Stamp × (String × F))
