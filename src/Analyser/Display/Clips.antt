-- ===== src/Analyser/Display/Clips.antt =====
-- scripts/i2s-skew.py: what the document of `_ops_to_svg` draws, and in which group.
use mathlib.Core.List.{append_assoc}
use esphome_snapcast.Base.{
  ◌≡◌, ◌≢◌, ◌↔◌, refl, ◌∙◌, ap, Bool, true, false, Option, none, some, List, [], ◌∷◌, ◌++◌, map,
}
use esphome_snapcast.Base.Int.{ℤ}
use esphome_snapcast.Analyser.Display.Svg.{
  Op, Element, element_of, is_set, want_clip, Piece, group_tags, body_of, ops_to_svg,
}

abbrev pub cons_to : {A : Type 0} → A → Option (List A) → Option (List A)
cons_to a none = none
cons_to a (some as') = some (a ∷ as')

-- A reader of the document: each element with whether it stands in the clipped group; nothing if the
-- tags are not balanced or a group stands in another.
abbrev pub read_from : Bool → List Piece → Option (List (Bool × Element))
read_from clipped [] = none
read_from clipped (Piece.svg_start w h ∷ pieces) = none
read_from clipped (Piece.clip_path x y w h ∷ pieces) = read_from clipped pieces
read_from false (Piece.group_start ∷ pieces) = read_from true pieces
read_from true (Piece.group_start ∷ pieces) = none
read_from true (Piece.group_end ∷ pieces) = read_from false pieces
read_from false (Piece.group_end ∷ pieces) = none
read_from clipped (Piece.drawn e ∷ pieces) = cons_to (clipped, e) (read_from clipped pieces)
read_from false (Piece.svg_end ∷ []) = some []
read_from clipped (Piece.svg_end ∷ pieces) = none

abbrev pub read_document : List Piece → Option (List (Bool × Element))
read_document (Piece.svg_start w h ∷ pieces) = read_from false pieces
read_document _ = none

abbrev drawn_of : Op → Bool × Element
drawn_of op = (want_clip op, element_of op)

read-group :
    (open_clip want : Bool) (e : Element) (pieces : List Piece)
    → read_from open_clip (group_tags open_clip want ++ Piece.drawn e ∷ pieces)
      ≡ cons_to (want, e) (read_from want pieces)
read-group true true e pieces = refl
read-group true false e pieces = refl
read-group false true e pieces = refl
read-group false false e pieces = refl

read-body :
    (open_clip : Bool) (ops : List Op)
    → read_from open_clip (body_of open_clip ops ++ Piece.svg_end ∷ []) ≡ some (map drawn_of ops)
unfolding body_of
read-body true [] = refl
read-body false [] = refl
read-body open_clip (op ∷ ops) =
    let rest = body_of (want_clip op) ops ++ Piece.svg_end ∷ [] in
    ap (read_from open_clip) (
      append_assoc (group_tags open_clip (want_clip op))
        (Piece.drawn (element_of op) ∷ body_of (want_clip op) ops) (Piece.svg_end ∷ []))
    ∙ read-group open_clip (want_clip op) (element_of op) rest
    ∙ ap (cons_to (drawn_of op)) (read-body (want_clip op) ops)

-- In which group an op stands: a polyline in the clipped one exactly if it has an opacity, an area
-- exactly if it has a clip, and nothing else.
abbrev pub IsGrouped : Op → Bool → Type 0
IsGrouped (Op.poly flat st wd dash opac clip) clipped = (clipped ≡ true) ↔ (opac ≢ none)
IsGrouped (Op.area flat fill opac clip) clipped = (clipped ≡ true) ↔ (clip ≢ none)
IsGrouped _ clipped = clipped ≡ false

-- The ops, each with its element, once and in order.
abbrev pub AreDrawn : List Op → List (Bool × Element) → Type 0
AreDrawn [] [] = Unit
AreDrawn (op ∷ ops) ((clipped, e) ∷ drawn) =
    (e ≡ element_of op) × IsGrouped op clipped × AreDrawn ops drawn
AreDrawn _ _ = ⊥

is_set_iff : {A : Type 0} (o : Option A) → (is_set o ≡ true) ↔ (o ≢ none)
is_set_iff none = (λ h. cc h, λ h. absurd (h refl))
is_set_iff (some a) = (λ h e. cc e, λ h. refl)

want_clip-IsGrouped : (op : Op) → IsGrouped op (want_clip op)
unfolding want_clip
want_clip-IsGrouped (Op.rect x y w h fill opac) = refl
want_clip-IsGrouped (Op.line x1 y1 x2 y2 st wd dash opac) = refl
want_clip-IsGrouped (Op.poly flat st wd dash opac clip) = is_set_iff opac
want_clip-IsGrouped (Op.area flat fill opac clip) = is_set_iff clip
want_clip-IsGrouped (Op.circle cx cy r fill) = refl
want_clip-IsGrouped (Op.text x y s anchor fill size weight rot) = refl

drawn_of-AreDrawn : (ops : List Op) → AreDrawn ops (map drawn_of ops)
drawn_of-AreDrawn [] = tt
drawn_of-AreDrawn (op ∷ ops) = (refl, want_clip-IsGrouped op, drawn_of-AreDrawn ops)

read-document :
    (ops : List Op) (w h : ℤ) (clip : Option (ℤ × ℤ × ℤ × ℤ))
    → read_document (ops_to_svg ops w h clip) ≡ some (map drawn_of ops)
unfolding ops_to_svg
read-document ops w h none = read-body false ops
read-document ops w h (some (x, y, cw, ch)) = read-body false ops

-- The document is balanced, and draws the element of each op once, in order. It stands in the clipped
-- group exactly if the op is a polyline with an opacity, whether it has a clip or not, or an area with
-- a clip.
pub ops_to_svg-drawn :
    (ops : List Op) (w h : ℤ) (clip : Option (ℤ × ℤ × ℤ × ℤ))
    → (drawn : List (Bool × Element)) × (read_document (ops_to_svg ops w h clip) ≡ some drawn)
      × AreDrawn ops drawn
ops_to_svg-drawn ops w h clip =
    (map drawn_of ops, read-document ops w h clip, drawn_of-AreDrawn ops)
