-- ===== src/Analyser/LogEvents/Frames.antt =====
-- scripts/i2s-skew.py: no handler but that of the role touches the role or marks a change of it.
use Prim.Native.String.{String}
use mathlib.Core.List.{append-nil}
use esphome_snapcast.Base.{
  ℕ, if◌then◌else◌, ◌≡◌, refl, ◌∙◌, ap, Bool, true, false, Option, none, some, List, [], ◌∷◌, ◌++◌,
  arith,
}
use esphome_snapcast.Base.Int.{ℤ}
use esphome_snapcast.Analyser.LogEvents.Lines.{
  Stamp, tod, Token, unknown, unreadable, number, DlLoop, DlState, RPhase,
}
use esphome_snapcast.Analyser.LogEvents.Log.{
  Event, out_of_range, loop_mode, tau_first, tau_change, servo_param, rphase_gate, rphase_plot,
  role_change, Key, Log, mark,
}
use esphome_snapcast.Analyser.LogEvents.DelayLoop.{
  earlier, mode_of, on_dl_oor, on_dl_loop, on_dl_state,
}
use esphome_snapcast.Analyser.LogEvents.Servo.{
  tau_event, add_token, on_servo_param, on_servo_tune, on_rphase, add_first,
}
use esphome_snapcast.Analyser.LogEvents.Marks.{mark_if}
use esphome_snapcast.Analyser.LogEvents.Parse.{match_or}

module _ {F : Type 0} where
  -- The changes of role among events, in order.
  unfoldable pub role_events : List (ℕ × Event F) → List (String × String)
  role_events [] = []
  role_events ((t, role_change old new) ∷ events) = (old, new) ∷ role_events events
  role_events (_ ∷ events) = role_events events

  pub role_events-append :
      (xs ys : List (ℕ × Event F)) → role_events (xs ++ ys) ≡ role_events xs ++ role_events ys
  unfolding role_events
  role_events-append [] ys = refl
  role_events-append ((t, role_change old new) ∷ xs) ys =
      ap (λ r. (old, new) ∷ r) (role_events-append xs ys)
  role_events-append (_ ∷ xs) ys = role_events-append xs ys

  -- The role that is remembered, and the changes marked so far.
  pub record SameRole (log log' : Log F) : Type 0 where
    pub role : log'.memory.role ≡ log.memory.role
    pub marked : role_events log'.events ≡ role_events log.events

  pub mark-SameRole :
      (t : ℕ) (event : Event F) (log : Log F)
      → role_events ((t, event) ∷ []) ≡ []
      → SameRole log (mark t event log)
  mark-SameRole t event log h = record {
    role = refl;
    marked =
        role_events-append log.events ((t, event) ∷ [])
        ∙ rw h (append-nil (role_events log.events));
  }

  pub on_dl_oor-SameRole : (m : Stamp × ℤ) (log : Log F) → SameRole log (on_dl_oor m log)
  unfolding on_dl_oor role_events
  on_dl_oor-SameRole (at, err) log = ground (arith, mark-SameRole (tod at) (out_of_range err) log)

  pub on_dl_loop-SameRole :
      (dev : Option ℕ) (m : DlLoop F) (log : Log F) → SameRole log (on_dl_loop dev m log)
  unfolding on_dl_loop
  on_dl_loop-SameRole dev m log = ground arith

  pub on_dl_state-SameRole :
      (gate : ℕ) (m : DlState F) (log : Log F) → SameRole log (on_dl_state gate m log)
  unfolding on_dl_state role_events
  on_dl_state-SameRole gate m log =
      ground (arith, mark-SameRole (tod m.at) (loop_mode (mode_of m.text) m.integral) log)

  tau_event-SameRole :
      (t : ℕ) (tau : String) (last : Option String) (log : Log F)
      → SameRole log (tau_event t tau last log)
  unfolding role_events
  tau_event-SameRole t tau none log = mark-SameRole t (tau_first tau) log refl
  tau_event-SameRole t tau (some last) log =
      ground (arith, mark-SameRole t (tau_change last tau) log)

  pub on_servo_tune-SameRole :
      (m : Stamp × String) (log : Log F) → SameRole log (on_servo_tune m log)
  unfolding on_servo_tune
  on_servo_tune-SameRole (at, tau) log =
      let last = if earlier (tod at) log.memory.tau_t then none else log.memory.tau in
      let same = tau_event-SameRole (tod at) tau last log in
      record { role = same.role; marked = same.marked }

  pub on_servo_param-SameRole :
      (m : Stamp × (String × String)) (log : Log F) → SameRole log (on_servo_param m log)
  unfolding on_servo_param role_events
  on_servo_param-SameRole (at, (name, value)) log =
      mark-SameRole (tod at) (servo_param name value) log refl

  add_token-SameRole :
      (key : Key) (t : ℕ) (dev : Option ℕ) (token : Option (Token F)) (log log' : Log F)
      → SameRole log log'
      → SameRole log (add_token key t dev token log')
  add_token-SameRole key t dev none log log' same = same
  add_token-SameRole key t dev (some unknown) log log' same = same
  add_token-SameRole key t dev (some unreadable) log log' same = same
  add_token-SameRole key t dev (some (number value)) log log' same = record {
    role = same.role;
    marked = same.marked;
  }

  pub same_role : (log : Log F) → SameRole log log
  same_role log = record { role = refl; marked = refl }

  pub on_rphase-SameRole :
      (dev : Option ℕ) (m : RPhase F) (log : Log F) → SameRole log (on_rphase dev m log)
  unfolding on_rphase
  on_rphase-SameRole dev m log =
      let t = tod m.at in
      add_token-SameRole rphase_plot t dev m.plot log
        (add_token rphase_gate t dev (some m.gate) log)
        (add_token-SameRole rphase_gate t dev (some m.gate) log log (same_role log))

  pub add_first-SameRole :
      (dev : Option ℕ) (series : List (Key × Option (Stamp × F))) (log : Log F)
      → SameRole log (add_first dev series log)
  unfolding add_first
  add_first-SameRole dev [] log = same_role log
  add_first-SameRole dev ((key, some (at, value)) ∷ more) log = record {
    role = refl;
    marked = refl;
  }
  add_first-SameRole dev ((key, none) ∷ more) log = add_first-SameRole dev more log

  pub trans-SameRole :
      (log log' log'' : Log F) → SameRole log log' → SameRole log' log'' → SameRole log log''
  trans-SameRole log log' log'' s s' = record {
    role = s'.role ∙ s.role;
    marked = s'.marked ∙ s.marked;
  }

  pub match_or-SameRole :
      {A : Type 0} (m : Option A) (handle : A → Log F) (log otherwise : Log F)
      → ((a : A) → SameRole log (handle a))
      → SameRole log otherwise
      → SameRole log (match_or m handle otherwise)
  match_or-SameRole none handle log otherwise h o = o
  match_or-SameRole (some a) handle log otherwise h o = h a

  pub mark_if-SameRole :
      (test : Bool) (t : ℕ) (event : Event F) (log : Log F)
      → role_events ((t, event) ∷ []) ≡ []
      → SameRole log (mark_if test t event log)
  mark_if-SameRole true t event log h = mark-SameRole t event log h
  mark_if-SameRole false t event log h = same_role log
