-- ===== src/Analyser/CsvFile/Text.antt =====
-- scripts/i2s-skew.py: the string methods that its readers of CSV files call. The white space is
-- that of ASCII, as in the files that the program writes.
use Prim.Native.Char.{Char, code}
use Prim.Native.String.{String}
use text.Mathlib.Text.{◌==◌ as str_eq, starts_with}
use esphome_snapcast.Base.{
  ℕ, suc, ◌≡◌, refl, Bool, true, false, ◌&&◌, ◌||◌, Option, none, some, List, [], ◌∷◌, leb, ◌==◌,
  if◌then◌else◌,
}

abbrev pub is_space : Char → Bool
is_space c = (leb 9 (code c) && leb (code c) 13) || (leb 28 (code c) && leb (code c) 32)

abbrev pub is_empty : String → Bool
is_empty String.[] = true
is_empty (String.◌∷◌ c s) = false

unfoldable pub lstrip : String → String
lstrip String.[] = String.[]
lstrip (String.◌∷◌ c s) = let rest = lstrip s in if is_space c then rest else String.◌∷◌ c s

-- `rstrip` with the test of what is stripped
unfoldable pub rstrip : (Char → Bool) → String → String
rstrip drops String.[] = String.[]
rstrip drops (String.◌∷◌ c s) =
    let rest = rstrip drops s in if drops c && is_empty rest then String.[] else String.◌∷◌ c rest

abbrev pub is_comma : Char → Bool
is_comma c = code c == 44

abbrev cons_head : Char → List String → List String
cons_head c [] = String.◌∷◌ c String.[] ∷ []
cons_head c (word ∷ words) = String.◌∷◌ c word ∷ words

-- `split(",")`
unfoldable pub split : String → List String
split String.[] = String.[] ∷ []
split (String.◌∷◌ c s) =
    let rest = split s in if is_comma c then String.[] ∷ rest else cons_head c rest

unfoldable pub strip : String → String
unfolding lstrip rstrip
strip line = lstrip (rstrip is_space line)

-- `line.strip().split(",")`
unfoldable pub fields : String → List String
unfolding strip split
fields line = split (strip line)

-- `line.startswith("elapsed_s")`
abbrev pub is_header : String → Bool
is_header line = starts_with line "elapsed_s"

-- `line[:1] in "#e"`; the empty text is in any.
abbrev pub is_comment : String → Bool
is_comment String.[] = true
is_comment (String.◌∷◌ c s) = (code c == 35) || (code c == 101)

-- `cols.index(name)`, if the name is among them
unfoldable pub index_of : String → List String → Option ℕ
index_of name [] = none
index_of name (col ∷ cols) =
    let rest = index_of name cols in
    if str_eq col name then some 0 else elim rest [ none ↦ none | some i ↦ some (suc i) ]

split_row : fields "1.5,,x \n" ≡ "1.5" ∷ "" ∷ "x" ∷ []
unfolding fields
split_row = refl
