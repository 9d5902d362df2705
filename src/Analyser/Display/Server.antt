-- ===== src/Analyser/Display/Server.antt =====
-- scripts/i2s-skew.py: `PlotServer`: `publish`, the loop of a client of `/events`, and the handler of
-- `/control`. What a frame holds is a parameter. A set of names is a list.
use Prim.Native.String.{String}
use text.Mathlib.Text.{◌==◌ as str_eq}
use esphome_snapcast.Base.{
  ℕ, ◌+◌, Bool, true, false, ◌||◌, Option, none, some, List, [], ◌∷◌, ◌++◌, if◌then◌else◌,
}
use esphome_snapcast.Base.Int.{ℤ, pos, ltb_ℤ}

-- `max` and `min` of two integers
abbrev pub at_least : ℤ → ℤ → ℤ
at_least lo x = if ltb_ℤ lo x then x else lo

abbrev pub at_most : ℤ → ℤ → ℤ
at_most hi x = if ltb_ℤ x hi then x else hi

-- A window in seconds, which may be `inf`.
pub data Window : Type 0 where
  seconds : ℤ → Window
  endless : Window

-- What `float` makes of the text of a request.
pub data Number : Type 0 where
  no_number nan : Number
  infinite : (negative : Bool) → Number
  number : ℤ → Number

pub record Frame (P : Type 0) : Type 0 where
  pub v : ℕ
  pub payload : P

pub record Server (P : Type 0) : Type 0 where
  pub version : ℕ
  pub frame : Option (Frame P)
  pub bad_frames : ℕ
  pub width : ℤ
  pub window : Option Window
  pub hidden : List String

abbrev pub plot_width : ℤ
plot_width = pos 900

-- A request to `/control`: the parameters that it has, split at the commas where they are names.
pub record Request : Type 0 where
  pub w : Option Number
  pub window : Option Number
  pub hide : Option (List String)
  pub show : Option (List String)
  pub hidden : Option (List String)

-- A request is answered; or it is a bad one, or the handler raises, and both keep what was set before.
pub data Reply : Type 0 where
  answered bad_request raised : Reply

abbrev pub is_empty : String → Bool
is_empty String.[] = true
is_empty (String.◌∷◌ c s) = false

-- `{g for g in ... if g}`
unfoldable pub names_of : List String → List String
names_of [] = []
names_of (g ∷ gs) = let rest = names_of gs in if is_empty g then rest else g ∷ rest

unfoldable pub has : String → List String → Bool
has g [] = false
has g (h ∷ hs) = str_eq h g || has g hs

-- `h -= names`
unfoldable pub minus : List String → List String → List String
unfolding has
minus [] names = []
minus (h ∷ hs) names = let rest = minus hs names in if has h names then rest else h ∷ rest

abbrev pub or_none : Option (List String) → List String
or_none none = []
or_none (some gs) = gs

abbrev pub is_given {ℓ} : {A : Type ℓ} → Option A → Bool
is_given none = false
is_given (some a) = true

-- `max(420, min(6000, int(float(...))))`, where `int` refuses what is no number
pub data Checked (A : Type 0) : Type 0 where
  fine : A → Checked A
  value_error overflow_error : Checked A

unfoldable pub clamp_width : Number → Checked ℤ
clamp_width Number.no_number = value_error
clamp_width Number.nan = value_error
clamp_width (Number.infinite negative) = overflow_error
clamp_width (Number.number z) = fine (at_least (pos 420) (at_most (pos 6000) z))

-- `max(0.0, float(...))`, which is 0.0 of a NaN
unfoldable pub clamp_window : Number → Checked Window
clamp_window Number.no_number = value_error
clamp_window Number.nan = fine (Window.seconds (pos 0))
clamp_window (Number.infinite true) = fine (Window.seconds (pos 0))
clamp_window (Number.infinite false) = fine Window.endless
clamp_window (Number.number z) = fine (Window.seconds (at_least (pos 0) z))

-- What a client has read: its version, and what was sent to it.
pub data Sent (P : Type 0) : Type 0 where
  ping : Sent P
  data_frame : Frame P → Sent P

pub record Client (P : Type 0) : Type 0 where
  pub seen : ℕ
  pub sent : List (Sent P)

-- What can happen, in any order.
pub data Action (P : Type 0) : Type 0 where
  publishes : P → Bool → Action P
  controls : Request → Action P
  sends : Action P

pub record World (P : Type 0) : Type 0 where
  pub server : Server P
  pub client : Client P

module _ {P : Type 0} where
  abbrev pub new_server : Server P
  new_server = record {
    version = 0;
    frame = none;
    bad_frames = 0;
    width = plot_width;
    window = none;
    hidden = [];
  }

  -- `publish`; `finite` is whether `json.dumps` takes the payload.
  unfoldable pub publish : P → Bool → Server P → Server P
  publish payload finite s =
      if finite
      then record s {
        version = s.version + 1;
        frame = some (record { v = s.version + 1; payload = payload });
      }
      else record s { bad_frames = s.bad_frames + 1 }

  -- `if "hide" in q or "show" in q`, then `if "hidden" in q`
  unfoldable pub set_hidden : Request → Server P → Server P
  unfolding names_of minus
  set_hidden q s =
      let changed = minus (s.hidden ++ names_of (or_none q.hide)) (names_of (or_none q.show)) in
      let kept = if is_given q.hide || is_given q.show then changed else s.hidden in
      record s { hidden = elim q.hidden [ none ↦ kept | some gs ↦ names_of gs ] }

  -- The window, if it reads, and the names behind it
  abbrev pub with_window : Request → Server P → Checked Window → Server P × Reply
  with_window q s (fine w) = (set_hidden q (record s { window = some w }), answered)
  with_window q s value_error = (s, bad_request)
  with_window q s overflow_error = (s, raised)

  unfoldable pub set_window : Request → Server P → Server P × Reply
  unfolding set_hidden clamp_window
  set_window q s = elim q.window [
    | none ↦ (set_hidden q s, answered)
    | some x ↦ with_window q s (clamp_window x)
  ]

  abbrev pub with_width : Request → Server P → Checked ℤ → Server P × Reply
  with_width q s (fine w) = set_window q (record s { width = w })
  with_width q s value_error = (s, bad_request)
  with_width q s overflow_error = (s, raised)

  -- The handler of `/control`
  unfoldable pub control : Request → Server P → Server P × Reply
  unfolding set_window clamp_width
  control q s = elim q.w [ none ↦ set_window q s | some x ↦ with_width q s (clamp_width x) ]

  abbrev pub new_client : Client P
  new_client = record { seen = 0; sent = [] }

  abbrev pub message : Option (Frame P) → Sent P
  message none = ping
  message (some f) = data_frame f

  -- One round of the loop of `/events`, behind its wait
  unfoldable pub client_turn : Server P → Client P → Client P
  client_turn s c = record { seen = s.version; sent = c.sent ++ message s.frame ∷ [] }

  unfoldable pub fire : Action P → World P → World P
  unfolding publish control client_turn
  fire (publishes payload finite) w = record w { server = publish payload finite w.server }
  fire (controls q) w = record w { server = (control q w.server).0 }
  fire sends w = record w { client = client_turn w.server w.client }

  unfoldable pub fire_all : List (Action P) → World P → World P
  unfolding fire
  fire_all [] w = w
  fire_all (a ∷ as') w = fire_all as' (fire a w)
