-- ===== src/Analyser/LogEvents/WholeLines.antt =====
-- scripts/i2s-skew.py: texts that end their last line.
use esphome_snapcast.Base.{
  ℕ, zero, suc, ◌≡◌, refl, ◌∙◌, ap, inl, inr, List, [], ◌∷◌, ◌++◌, ◌==◌, drop, ==_iff, Bool-cases,
}
use esphome_snapcast.Analyser.LogEvents.Resume.{Bytes, newline, onto_first, lines_of, behind_line}

-- The text is empty or ends in a newline.
abbrev pub EndsLine : Bytes → Type 0
EndsLine [] = Unit
EndsLine (b ∷ []) = b ≡ newline
EndsLine (b ∷ c ∷ bs) = EndsLine (c ∷ bs)

-- A text that is not empty has a first line.
abbrev HasFirst : List Bytes → Type 0
HasFirst lines = (x : Bytes) × (rest : List Bytes) × (lines ≡ x ∷ rest)

onto_first-HasFirst : (b : ℕ) (lines : List Bytes) → HasFirst (onto_first b lines)
onto_first-HasFirst b [] = (b ∷ [], [], refl)
onto_first-HasFirst b (line ∷ lines) = (b ∷ line, lines, refl)

lines_of-HasFirst : (b : ℕ) (bs : Bytes) → HasFirst (lines_of (b ∷ bs))
unfolding lines_of
lines_of-HasFirst b bs = elim (Bool-cases (b == newline)) [
  | inl found ↦ rw found (b ∷ [], lines_of bs, refl)
  | inr other ↦ rw other (onto_first-HasFirst b (lines_of bs))
]

onto_first-append :
    (b : ℕ) (xs ys : List Bytes) → HasFirst xs → onto_first b (xs ++ ys) ≡ onto_first b xs ++ ys
onto_first-append b xs ys (x, rest, e) = rw e refl

-- A text that ends its line is cut apart from what is behind it.
pub lines_of-append : (a b : Bytes) → EndsLine a → lines_of (a ++ b) ≡ lines_of a ++ lines_of b
unfolding lines_of
lines_of-append [] b ends = refl
lines_of-append (x ∷ []) b ends = rw ((==_iff x newline).1 ends) refl
lines_of-append (x ∷ y ∷ a) b ends = elim (Bool-cases (x == newline)) [
  | inl found ↦ rw found (ap (λ r. (x ∷ []) ∷ r) (lines_of-append (y ∷ a) b ends))
  | inr other ↦ rw other (
      ap (onto_first x) (lines_of-append (y ∷ a) b ends)
      ∙ onto_first-append x (lines_of (y ∷ a)) (lines_of b) (lines_of-HasFirst y a))
]

EndsLine-tail : (b : ℕ) (bs : Bytes) → EndsLine (b ∷ bs) → EndsLine bs
EndsLine-tail b [] ends = tt
EndsLine-tail b (c ∷ bs) ends = ends

pub EndsLine-drop : (n : ℕ) (bs : Bytes) → EndsLine bs → EndsLine (drop n bs)
EndsLine-drop zero bs ends = ends
EndsLine-drop (suc n) [] ends = tt
EndsLine-drop (suc n) (b ∷ bs) ends = EndsLine-drop n bs (EndsLine-tail b bs ends)

pub EndsLine-behind : (bs : Bytes) → EndsLine bs → EndsLine (behind_line bs)
unfolding behind_line
EndsLine-behind [] ends = tt
EndsLine-behind (b ∷ bs) ends = elim (Bool-cases (b == newline)) [
  | inl found ↦ rw found (EndsLine-tail b bs ends)
  | inr other ↦ rw other (EndsLine-behind bs (EndsLine-tail b bs ends))
]

pub EndsLine-append : (a b : Bytes) → EndsLine a → EndsLine b → EndsLine (a ++ b)
EndsLine-append [] b ea eb = eb
EndsLine-append (x ∷ []) [] ea eb = ea
EndsLine-append (x ∷ []) (y ∷ b) ea eb = eb
EndsLine-append (x ∷ y ∷ a) b ea eb = EndsLine-append (y ∷ a) b ea eb
