-- ===== src/Analyser/Display/Svg.antt =====
-- scripts/i2s-skew.py: `_ops_to_svg`. An element is its name, its attributes in order and, for a text,
-- its escaped content; how a number prints is left out.
use Prim.Native.String.{String}
use package.text.Mathlib.Text.{◌==◌ as str_eq}
use esphome_snapcast.Base.{
  Bool, true, false, not, ◌&&◌, Option, none, some, List, [], ◌∷◌, ◌++◌, if◌then◌else◌,
}
use esphome_snapcast.Base.Int.{ℤ}
use esphome_snapcast.Analyser.Display.Escape.{Text, xml_escape}

pub data Clip : Type 0 where
  top : Clip

-- The value of an attribute: a number, a word, a dash, the points of a line, a rotation.
pub data Value : Type 0 where
  num : ℤ → Value
  word : String → Value
  dashes : ℤ → ℤ → Value
  points : List (ℤ × ℤ) → Value
  rotate : ℤ → ℤ → ℤ → Value

pub data Op : Type 0 where
  rect : (x y w h : ℤ) → (fill : String) → (opac : Option ℤ) → Op
  line :
      (x1 y1 x2 y2 : ℤ)
      → (st : String) → (wd : Option ℤ) → (dash : Option (ℤ × ℤ)) → (opac : Option ℤ) → Op
  poly :
      (flat : List (ℤ × ℤ))
      → (st : String) → (wd : Option ℤ) → (dash : Option (ℤ × ℤ)) → (opac : Option ℤ)
      → (clip : Option Clip) → Op
  area : (flat : List (ℤ × ℤ)) → (fill : String) → (opac : Option ℤ) → (clip : Option Clip) → Op
  circle : (cx cy r : ℤ) → (fill : String) → Op
  text :
      (x y : ℤ)
      → (s : Text) → (anchor : Option String) → (fill : Option String) → (size : Option ℤ)
      → (weight : Option ℤ) → (rot : Option (ℤ × ℤ × ℤ)) → Op

-- THEME_LIGHT
abbrev pub theme_light : List (String × String)
theme_light =
    ("bg", "white")
    ∷ ("fg", "#000")
    ∷ ("grid", "#e5e5e5")
    ∷ ("axis", "#333")
    ∷ ("tick", "#555")
    ∷ ("tickmark", "#888")
    ∷ ("stats", "#666")
    ∷ ("zero", "#888")
    ∷ ("zero2", "#bbb")
    ∷ ("shade", "#000")
    ∷ []

-- `dict.get(c, c)`
unfoldable pub get_colour : List (String × String) → String → String
get_colour [] c = c
get_colour ((name, colour) ∷ theme) c =
    let rest = get_colour theme c in if str_eq name c then colour else rest

unfoldable pub svg_colour : String → String
unfolding get_colour
svg_colour c = get_colour theme_light c

abbrev pub Attr : Type 0
Attr = String × Value

abbrev pub attr : {A : Type 0} → String → (A → Value) → Option A → List Attr
attr name show none = []
attr name show (some a) = (name, show a) ∷ []

pub record Element : Type 0 where
  pub name : String
  pub attrs : List Attr
  pub content : Option Text

abbrev pub element : String → List Attr → Element
element name attrs = record { name = name; attrs = attrs; content = none }

abbrev pub stroke_attrs : Option ℤ → Option (ℤ × ℤ) → Option ℤ → List Attr
stroke_attrs wd dash opac =
    attr "stroke-width" (λ n. num n) wd
    ++ (attr "stroke-dasharray" (λ (d : ℤ × ℤ). dashes d.0 d.1) dash
        ++ attr "opacity" (λ n. num n) opac)

-- What is appended for one op.
unfoldable pub element_of : Op → Element
unfolding svg_colour
element_of (rect x y w h fill opac) = element "rect" (
    ("x", num x)
    ∷ ("y", num y)
    ∷ ("width", num w)
    ∷ ("height", num h)
    ∷ ("fill", word (svg_colour fill))
    ∷ attr "opacity" (λ n. num n) opac)
element_of (line x1 y1 x2 y2 st wd dash opac) = element "line" (
    ("x1", num x1)
    ∷ ("y1", num y1)
    ∷ ("x2", num x2)
    ∷ ("y2", num y2)
    ∷ ("stroke", word (svg_colour st))
    ∷ stroke_attrs wd dash opac)
element_of (poly flat st wd dash opac clip) = element "polyline" (
    ("points", points flat)
    ∷ ("fill", word "none")
    ∷ ("stroke", word (svg_colour st))
    ∷ stroke_attrs wd dash opac)
element_of (area flat fill opac clip) = element "polygon" (
    ("points", points flat)
    ∷ ("fill", word (svg_colour fill))
    ∷ ("stroke", word "none")
    ∷ attr "opacity" (λ n. num n) opac)
element_of (circle cx cy r fill) =
    element "circle"
      (("cx", num cx) ∷ ("cy", num cy) ∷ ("r", num r) ∷ ("fill", word (svg_colour fill)) ∷ [])
element_of (text x y s anchor fill size weight rot) = record {
  name = "text";
  attrs =
      ("x", num x)
      ∷ ("y", num y)
      ∷ (attr "text-anchor" (λ a. word a) anchor
          ++ (attr "fill" (λ c. word (svg_colour c)) fill
              ++ (attr "font-size" (λ n. num n) size
                  ++ (attr "font-weight" (λ n. num n) weight
                      ++ attr "transform" (λ (r : ℤ × ℤ × ℤ). rotate r.0 r.1 r.2) rot))));
  content = some (xml_escape s);
}

abbrev pub is_set {ℓ} : {A : Type ℓ} → Option A → Bool
is_set none = false
is_set (some a) = true

-- `want_clip`: `op[5]` of a polyline, which is its opacity, and `op[4]` of an area, which is its clip.
unfoldable pub want_clip : Op → Bool
want_clip (poly flat st wd dash opac clip) = is_set opac
want_clip (area flat fill opac clip) = is_set clip
want_clip _ = false

pub data Piece : Type 0 where
  svg_start : (w h : ℤ) → Piece
  clip_path : (x y w h : ℤ) → Piece
  group_start group_end svg_end : Piece
  drawn : Element → Piece

-- The tags of the group in front of an op
abbrev pub group_tags : Bool → Bool → List Piece
group_tags open_clip want =
    if want && not open_clip
    then group_start ∷ []
    else if open_clip && not want
    then group_end ∷ []
    else []

-- The loop, with `open_clip`, and what is behind it
unfoldable pub body_of : Bool → List Op → List Piece
body_of open_clip [] = if open_clip then group_end ∷ [] else []
body_of open_clip (op ∷ ops) =
    group_tags open_clip (want_clip op) ++ drawn (element_of op) ∷ body_of (want_clip op) ops

abbrev pub clip_defs : Option (ℤ × ℤ × ℤ × ℤ) → List Piece
clip_defs none = []
clip_defs (some (x, y, w, h)) = clip_path x y w h ∷ []

unfoldable pub ops_to_svg : List Op → ℤ → ℤ → Option (ℤ × ℤ × ℤ × ℤ) → List Piece
unfolding body_of
ops_to_svg ops w h clip = svg_start w h ∷ (clip_defs clip ++ (body_of false ops ++ svg_end ∷ []))
