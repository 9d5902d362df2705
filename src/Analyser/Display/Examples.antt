-- ===== src/Analyser/Display/Examples.antt =====
-- scripts/i2s-skew.py: plots and their server at concrete inputs.
use Prim.Native.String.{String}
use esphome_snapcast.Base.{ℕ, ◌≡◌, refl, ◌⊎◌, Bool, true, false, none, some, List, [], ◌∷◌, map}
use esphome_snapcast.Base.Int.{pos}
use esphome_snapcast.Analyser.Display.Escape.{
  replace, xml_escape, IsSafe, IsReadAs, xml_escape-IsReadAs,
}
use esphome_snapcast.Analyser.Display.Svg.{Clip, Op, Element, want_clip, ops_to_svg}
use esphome_snapcast.Analyser.Display.Clips.{read_document, AreDrawn, ops_to_svg-drawn}
use esphome_snapcast.Analyser.Display.Files
use esphome_snapcast.Analyser.Display.Files.{
  Files, make_temp, write, give_up, ended, makes, writes, replaces, fails_to_write, Reach, here,
  next, begin,
}
use esphome_snapcast.Analyser.Display.Atomic.{Reach-whole}
use esphome_snapcast.Analyser.Display.Server.{
  Number, Request, Reply, Action, clamp_width, clamp_window, set_window, control, fire_all,
  new_server, new_client,
}
use esphome_snapcast.Analyser.Display.Clients.{IsSound, fire_all-IsSound}

-- `a<&`
escaped : xml_escape (97 ∷ 60 ∷ 38 ∷ []) ≡ 97 ∷ 38 ∷ 108 ∷ 116 ∷ 59 ∷ 38 ∷ 97 ∷ 109 ∷ 112 ∷ 59 ∷ []
unfolding xml_escape replace
escaped = refl

xml_escape-IsReadAs_example :
    IsSafe (xml_escape (97 ∷ 60 ∷ 38 ∷ []))
    × IsReadAs (xml_escape (97 ∷ 60 ∷ 38 ∷ [])) (97 ∷ 60 ∷ 38 ∷ [])
xml_escape-IsReadAs_example = xml_escape-IsReadAs (97 ∷ 60 ∷ 38 ∷ [])

-- A polyline of the panel without an opacity, one with an opacity and no clip, and an area.
abbrev ops : List Op
ops =
    Op.poly [] "axis" none none none (some Clip.top)
    ∷ Op.poly [] "axis" none none (some (pos 1)) none
    ∷ Op.area [] "#fff" none (some Clip.top)
    ∷ Op.circle (pos 1) (pos 2) (pos 3) "tick"
    ∷ []

-- The first should stand in the group, and the second should not.
clipped : map want_clip ops ≡ false ∷ true ∷ true ∷ false ∷ []
unfolding want_clip
clipped = refl

ops_to_svg-drawn_example :
    (drawn : List (Bool × Element)) × (read_document (ops_to_svg ops (pos 900) (pos 400) none)
      ≡ some drawn)
    × AreDrawn ops drawn
ops_to_svg-drawn_example = ops_to_svg-drawn ops (pos 900) (pos 400) none

abbrev texts : ℕ → String
texts i = "plot"

-- A thread fails, and another writes its plot between the steps of the first.
abbrev old : Files String
old = begin (some "old")

abbrev both : Files String
both = make_temp "" 1 (make_temp "" 0 old)

abbrev lost : Files String
lost = give_up 0 0 (some "pl") (write "plot" 1 1 both)

abbrev replaced : Files String
replaced = Files.replace 1 1 lost

run : Reach "" texts old replaced
run =
    next
      (next (next (next (next here (makes 0 refl)) (makes 1 refl)) (writes 1 1 refl))
        (fails_to_write 0 0 refl (some "pl")))
      (replaces 1 1 refl)

Reach-whole_example :
    (replaced.target ≡ some "old")
    ⊎ ((i : ℕ) × (replaced.threads i ≡ ended true) × (replaced.target ≡ some (texts i)))
Reach-whole_example = Reach-whole "" texts (some "old") run

-- An infinite width is not caught, and an infinite window is taken.
abbrev no_request : Request
no_request = record { w = none; window = none; hide = none; show = none; hidden = none }

not_caught :
    (control (record no_request { w = some (Number.infinite false) }) (new_server {P = ℕ})).1
    ≡ Reply.raised
unfolding control clamp_width
not_caught = refl

-- The width is set though the request is refused for its window.
half_set :
    let q = record no_request {
      w = some (Number.number (pos 100));
      window = some Number.no_number;
    } in
    let r = control q (new_server {P = ℕ}) in (r.1 ≡ Reply.bad_request) × (r.0.width ≡ pos 420)
unfolding control clamp_width set_window clamp_window
half_set = (refl, refl)

abbrev actions : List (Action ℕ)
actions =
    Action.sends
    ∷ Action.publishes 7 true
    ∷ Action.publishes 8 false
    ∷ Action.controls (record no_request { w = some (Number.number (pos 9_000)) })
    ∷ Action.sends
    ∷ []

fire_all-IsSound_example :
    IsSound (fire_all actions (record { server = new_server; client = new_client }))
fire_all-IsSound_example = fire_all-IsSound actions
