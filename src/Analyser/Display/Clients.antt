-- ===== src/Analyser/Display/Clients.antt =====
-- scripts/i2s-skew.py: what a client of the live view is sent, and what the controls can set.
use esphome_snapcast.Base.{
  ℕ, ◌≤◌, ◌≡◌, refl, ◌∙◌, sym, inl, inr, Bool, true, false, Option, none, some, List, [], ◌∷◌, ◌++◌,
  arith, Option-cases,
}
use esphome_snapcast.Base.Int.{ℤ, pos, ◌≤ℤ◌}
use esphome_snapcast.Analyser.Display.Server.{
  Window, Number, Frame, Server, Request, fine, value_error, overflow_error, Checked, clamp_width,
  clamp_window, publish, set_hidden, with_window, set_window, with_width, control, Sent, message,
  client_turn, Action, World, fire, fire_all, new_server, new_client,
}

abbrev pub WithinLimits : Option Window → Type 0
WithinLimits none = Unit
WithinLimits (some Window.endless) = Unit
WithinLimits (some (Window.seconds z)) = pos 0 ≤ℤ z

abbrev WindowFits : Checked Window → Type 0
WindowFits (fine w) = WithinLimits (some w)
WindowFits _ = Unit

abbrev WidthFits : Checked ℤ → Type 0
WidthFits (fine w) = (pos 420 ≤ℤ w) × (w ≤ℤ pos 6000)
WidthFits _ = Unit

clamp_window-fits : (x : Number) → WindowFits (clamp_window x)
unfolding clamp_window
clamp_window-fits Number.no_number = tt
clamp_window-fits Number.nan = omega arith
clamp_window-fits (Number.infinite true) = omega arith
clamp_window-fits (Number.infinite false) = tt
clamp_window-fits (Number.number z) = ground arith

clamp_width-fits : (x : Number) → WidthFits (clamp_width x)
unfolding clamp_width
clamp_width-fits Number.no_number = tt
clamp_width-fits Number.nan = tt
clamp_width-fits (Number.infinite negative) = tt
clamp_width-fits (Number.number z) = (ground arith, ground arith)

module _ {P : Type 0} where
  -- The version of what was sent last, or 0 for a ping.
  abbrev pub version_of : Sent P → ℕ
  version_of Sent.ping = 0
  version_of (Sent.data_frame f) = f.v

  -- No version stands behind a later one, and none is above the limit.
  abbrev pub IsRising : ℕ → List (Sent P) → Type 0
  IsRising low [] = Unit
  IsRising low (x ∷ xs) = (low ≤ version_of x) × IsRising (version_of x) xs

  abbrev pub last_version : ℕ → List (Sent P) → ℕ
  last_version low [] = low
  last_version low (x ∷ xs) = last_version (version_of x) xs

  -- The frame is the one of the version.
  abbrev pub IsCurrent : ℕ → Option (Frame P) → Type 0
  IsCurrent version none = version ≡ 0
  IsCurrent version (some f) = f.v ≡ version

  pub record IsSound (w : World P) : Type 0 where
    pub current : IsCurrent w.server.version w.server.frame
    pub caught : w.client.seen ≤ w.server.version
    pub rising : IsRising 0 w.client.sent
    pub last : last_version 0 w.client.sent ≡ w.client.seen
    pub narrow : pos 420 ≤ℤ w.server.width
    pub wide : w.server.width ≤ℤ pos 6000
    pub window : WithinLimits w.server.window

  IsRising-snoc :
      (low : ℕ) (xs : List (Sent P)) (x : Sent P)
      → IsRising low xs
      → last_version low xs ≤ version_of x
      → IsRising low (xs ++ x ∷ [])
  IsRising-snoc low [] x h le = (le, tt)
  IsRising-snoc low (y ∷ xs) x (a, h) le = (a, IsRising-snoc (version_of y) xs x h le)

  last_version-snoc :
      (low : ℕ) (xs : List (Sent P)) (x : Sent P) → last_version low (xs ++ x ∷ []) ≡ version_of x
  last_version-snoc low [] x = refl
  last_version-snoc low (y ∷ xs) x = last_version-snoc (version_of y) xs x

  version_of-message :
      (version : ℕ) (frame : Option (Frame P))
      → IsCurrent version frame
      → version_of (message frame) ≡ version
  version_of-message version none h = sym h
  version_of-message version (some f) h = h

  sends-IsSound : (w : World P) → IsSound w → IsSound (fire Action.sends w)
  unfolding fire client_turn
  sends-IsSound w s =
      let e = version_of-message w.server.version w.server.frame s.current in
      record {
        current = s.current;
        caught = omega arith;
        rising =
            IsRising-snoc 0 w.client.sent (message w.server.frame) s.rising
              (omega (arith, e, s.last, s.caught));
        last = last_version-snoc 0 w.client.sent (message w.server.frame) ∙ e;
        narrow = s.narrow;
        wide = s.wide;
        window = s.window;
      }

  publishes-IsSound :
      (payload : P) (finite : Bool) (w : World P)
      → IsSound w
      → IsSound (fire (Action.publishes payload finite) w)
  unfolding fire publish
  publishes-IsSound payload true w s = record {
    current = refl;
    caught = omega (arith, s.caught);
    rising = s.rising;
    last = s.last;
    narrow = s.narrow;
    wide = s.wide;
    window = s.window;
  }
  publishes-IsSound payload false w s = record {
    current = s.current;
    caught = s.caught;
    rising = s.rising;
    last = s.last;
    narrow = s.narrow;
    wide = s.wide;
    window = s.window;
  }

  -- What the controls leave alone, and the limits of what they set.
  record IsWithin (s t : Server P) : Type 0 where
    version : t.version ≡ s.version
    frame : t.frame ≡ s.frame
    narrow : pos 420 ≤ℤ t.width
    wide : t.width ≤ℤ pos 6000
    window : WithinLimits t.window

  set_hidden-IsWithin : (q : Request) (s t : Server P) → IsWithin s t → IsWithin s (set_hidden q t)
  unfolding set_hidden
  set_hidden-IsWithin q s t h = record {
    version = h.version;
    frame = h.frame;
    narrow = h.narrow;
    wide = h.wide;
    window = h.window;
  }

  with_window-IsWithin :
      (q : Request) (s t : Server P) (x : Checked Window)
      → IsWithin s t
      → WindowFits x
      → IsWithin s (with_window q t x).0
  with_window-IsWithin q s t (fine w) h f =
      set_hidden-IsWithin q s (record t { window = some w })
        (record {
          version = h.version;
          frame = h.frame;
          narrow = h.narrow;
          wide = h.wide;
          window = f;
        })
  with_window-IsWithin q s t value_error h f = h
  with_window-IsWithin q s t overflow_error h f = h

  set_window-IsWithin :
      (q : Request) (s t : Server P) → IsWithin s t → IsWithin s (set_window q t).0
  unfolding set_window
  set_window-IsWithin q s t h = elim (Option-cases q.window) [
    | inl e ↦ rw (e, set_window) (set_hidden-IsWithin q s t h)
    | inr (x, e) ↦
        rw (e, set_window) (with_window-IsWithin q s t (clamp_window x) h (clamp_window-fits x))
  ]

  with_width-IsWithin :
      (q : Request) (s t : Server P) (x : Checked ℤ)
      → IsWithin s t
      → WidthFits x
      → IsWithin s (with_width q t x).0
  with_width-IsWithin q s t (fine w) h (lo, hi) =
      set_window-IsWithin q s (record t { width = w })
        (record { version = h.version; frame = h.frame; narrow = lo; wide = hi; window = h.window })
  with_width-IsWithin q s t value_error h f = h
  with_width-IsWithin q s t overflow_error h f = h

  control-IsWithin : (q : Request) (s t : Server P) → IsWithin s t → IsWithin s (control q t).0
  unfolding control
  control-IsWithin q s t h = elim (Option-cases q.w) [
    | inl e ↦ rw (e, control) (set_window-IsWithin q s t h)
    | inr (x, e) ↦
        rw (e, control) (with_width-IsWithin q s t (clamp_width x) h (clamp_width-fits x))
  ]

  controls-IsSound : (q : Request) (w : World P) → IsSound w → IsSound (fire (Action.controls q) w)
  unfolding fire
  controls-IsSound q w s =
      let r = control-IsWithin q w.server w.server (record {
        version = refl;
        frame = refl;
        narrow = s.narrow;
        wide = s.wide;
        window = s.window;
      }) in
      record {
        current = rw (r.version, r.frame) s.current;
        caught = omega (arith, r.version, s.caught);
        rising = s.rising;
        last = s.last;
        narrow = r.narrow;
        wide = r.wide;
        window = r.window;
      }

  fire-IsSound : (a : Action P) (w : World P) → IsSound w → IsSound (fire a w)
  fire-IsSound (Action.publishes payload finite) w s = publishes-IsSound payload finite w s
  fire-IsSound (Action.controls q) w s = controls-IsSound q w s
  fire-IsSound Action.sends w s = sends-IsSound w s

  fire_all-step :
      (a : Action P) (as' : List (Action P)) (w : World P)
      → IsSound (fire_all as' (fire a w))
      → IsSound (fire_all (a ∷ as') w)
  unfolding fire_all
  fire_all-step a as' w s = s

  fire_all-keeps : (as' : List (Action P)) (w : World P) → IsSound w → IsSound (fire_all as' w)
  fire_all-keeps [] w s = unfold fire_all in s
  fire_all-keeps (a ∷ as') w s =
      fire_all-step a as' w (fire_all-keeps as' (fire a w) (fire-IsSound a w s))

  -- From the start on, whatever is published and set in whichever order: the frame is the one of the
  -- version; a client has never been sent a frame of an older version behind a newer one, and what it
  -- was sent last is of the version that it has seen; the width stays between 420 and 6000 and the
  -- window is never negative.
  pub fire_all-IsSound :
      (as' : List (Action P))
      → IsSound (fire_all as' (record { server = new_server; client = new_client }))
  fire_all-IsSound as' =
      fire_all-keeps as' (record { server = new_server; client = new_client })
        (record {
          current = refl;
          caught = omega arith;
          rising = tt;
          last = refl;
          narrow = omega arith;
          wide = omega arith;
          window = tt;
        })
