-- ===== src/Analyser/LogEvents/Servo.antt =====
-- scripts/i2s-skew.py: the handlers of the lines about the servo, the phases and the repairs.
use Prim.Native.String.{String}
use text.Mathlib.Text.{◌==◌ as str_eq}
use esphome_snapcast.Base.{ℕ, Option, none, some, List, [], ◌∷◌, ◌++◌, if◌then◌else◌}
use esphome_snapcast.Base.Int.{ℤ}
use esphome_snapcast.Analyser.LogEvents.Lines.{
  Stamp, tod, Token, unknown, unreadable, number, RPhase, SeedAnchor, RSync, RPre,
}
use esphome_snapcast.Analyser.LogEvents.Log.{
  servo_param, tau_first, tau_change, rphase_gate, rphase_plot, Key, Seed, Log, dev_time, value_of,
  mark, add_tuple, add_point,
}
use esphome_snapcast.Analyser.LogEvents.DelayLoop.{earlier}
use esphome_snapcast.Analyser.LogEvents.Rows.{rows_of}

-- `seeds[-1] = seeds[-1][:5] + (err,)`
unfoldable pub drain_last : ℤ → List Seed → List Seed
drain_last err [] = []
drain_last err (s ∷ []) = record s { drained = some err } ∷ []
drain_last err (s ∷ s' ∷ seeds) = s ∷ drain_last err (s' ∷ seeds)

module _ {F : Type 0} where
  -- `tw` and `tn`
  unfoldable pub on_trim_window : Option ℕ → Stamp × (F × F) → Log F → Log F
  on_trim_window dev (at, (mean, audio)) log = record log {
    trims = log.trims ++ record { tod = tod at; mean = some mean; audio = audio; dev = dev } ∷ [];
  }

  unfoldable pub on_trim_none : Option ℕ → Stamp × F → Log F → Log F
  on_trim_none dev (at, audio) log = record log {
    trims = log.trims ++ record { tod = tod at; mean = none; audio = audio; dev = dev } ∷ [];
  }

  -- `spm`
  unfoldable pub on_servo_param : Stamp × (String × String) → Log F → Log F
  on_servo_param (at, (name, value)) log = mark (tod at) (servo_param name value) log

  -- The first value of tau is an event, and each that differs from the last.
  abbrev pub tau_event : ℕ → String → Option String → Log F → Log F
  tau_event t tau none log = mark t (tau_first tau) log
  tau_event t tau (some last) log =
      if str_eq tau last then log else mark t (tau_change last tau) log

  -- `stn`
  unfoldable pub on_servo_tune : Stamp × String → Log F → Log F
  on_servo_tune (at, tau) log =
      let t = tod at in
      let last = if earlier t log.memory.tau_t then none else log.memory.tau in
      let marked = tau_event t tau last log in
      record marked { memory = record marked.memory { tau = some tau; tau_t = some t } }

  -- A token that is unknown or does not read adds nothing. Of one that reads the tuple has the value in
  -- front of the device time, where those of all other series have it behind.
  abbrev pub add_token : Key → ℕ → Option ℕ → Option (Token F) → Log F → Log F
  add_token key t dev none log = log
  add_token key t dev (some unknown) log = log
  add_token key t dev (some unreadable) log = log
  add_token key t dev (some (number value)) log =
      add_tuple key t (value_of value) (dev_time dev) log

  -- `rp` of RPHASE
  unfoldable pub on_rphase : Option ℕ → RPhase F → Log F → Log F
  on_rphase dev rp log =
      let t = tod rp.at in
      add_token rphase_plot t dev rp.plot (add_token rphase_gate t dev (some rp.gate) log)

  -- The first of the four patterns that matches adds its point.
  unfoldable pub add_first : Option ℕ → List (Key × Option (Stamp × F)) → Log F → Log F
  add_first dev [] log = log
  add_first dev ((key, some (at, value)) ∷ more) log = add_point key (tod at) dev value log
  add_first dev ((key, none) ∷ more) log = add_first dev more log

  -- `si` and REPAIR
  unfoldable pub on_split_inject : Option ℕ → Stamp × ℤ → Log F → Log F
  on_split_inject dev (at, us) log = record log {
    injects = log.injects ++ (tod at, (dev, us)) ∷ [];
  }

  unfoldable pub on_repair : Stamp × ℤ → Log F → Log F
  on_repair (at, us) log = record log { repairs = log.repairs ++ (tod at, us) ∷ [] }

  -- `dr` and `sa`
  unfoldable pub on_seed_drain : ℤ → Log F → Log F
  unfolding drain_last
  on_seed_drain err log = record log { seeds = drain_last err log.seeds }

  unfoldable pub on_seed_anchor : Option ℕ → SeedAnchor → Log F → Log F
  on_seed_anchor dev sa log = record log {
    seeds =
        log.seeds
        ++ record {
          tod = tod sa.at;
          dev = dev;
          latency = sa.latency;
          age = sa.age;
          frames = sa.frames;
          drained = none;
        }
          ∷ [];
  }

  -- `rs`
  unfoldable pub on_rsync : RSync → Log F → Log F
  on_rsync rs log = record log {
    rsyncs =
        log.rsyncs
        ++ record {
          tod = tod rs.at;
          seq = rs.seq;
          t = rs.t;
          err = rs.err;
          med = rs.med;
          ring = rs.ring;
          drops = rs.drops;
        }
          ∷ [];
  }

  -- `rp` of RPRE
  unfoldable pub on_rpre : RPre → Log F → Log F
  on_rpre rp log = record log {
    rsyncs = log.rsyncs ++ rows_of rp rp.dts rp.errs rp.meds rp.rings rp.drops;
  }
