-- ===== src/DinSkew/Shifted.antt =====
-- scripts/din-skew.py: how the two lists of `load_existing` belong together.
use Prim.Native.String.{String}
use mathlib.Core.List.{append_assoc, append-nil}
use mathlib.Core.Path.{ap₂}
use esphome_snapcast.Base.{
  ◌≡◌, refl, sym, ◌∙◌, ap, inl, inr, Option, none, some, List, [], ◌∷◌, ◌++◌, map, Bool-cases,
  if◌then◌else◌,
}
use esphome_snapcast.Analyser.CsvFile.Text.{fields}
use esphome_snapcast.DinSkew.Resumed.{
  Existing, add_row, on_parts, is_comment_line, on_line, read_rows, load_existing,
}

module _ {F : Type 0} (float : String → Option F) where
  -- What a line says: nothing, a time with its skew, or a time alone.
  pub data Reading : Type 0 where
    nothing : Reading
    row : F → F → Reading
    torn : F → Reading

  abbrev reading_of : Option F → Option F → Reading
  reading_of none dt = nothing
  reading_of (some t) none = torn t
  reading_of (some t) (some dt) = row t dt

  abbrev parts_reading : List String → Reading
  parts_reading (t ∷ u ∷ dt ∷ parts) = reading_of (float t) (float dt)
  parts_reading parts = nothing

  abbrev pub reading : String → Reading
  reading line = if is_comment_line float line then nothing else parts_reading (fields line)

  abbrev ts_of : Reading → List F
  ts_of nothing = []
  ts_of (row t dt) = t ∷ []
  ts_of (torn t) = t ∷ []

  abbrev dts_of : Reading → List F
  dts_of nothing = []
  dts_of (row t dt) = dt ∷ []
  dts_of (torn t) = []

  abbrev with_reading : Reading → Existing float → Existing float
  with_reading r e = record { ts = e.ts ++ ts_of r; dts = e.dts ++ dts_of r }

  nothing_read : (e : Existing float) → e ≡ with_reading nothing e
  nothing_read e =
      sym (ap₂ (λ a b. record e { ts = a; dts = b }) (append-nil e.ts) (append-nil e.dts))

  add_row-reading :
      (a b : Option F) (e : Existing float) → add_row float a b e ≡ with_reading (reading_of a b) e
  add_row-reading none b e = nothing_read e
  add_row-reading (some t) none e =
      ap (λ dts. record { ts = e.ts ++ t ∷ []; dts = dts }) (sym (append-nil e.dts))
  add_row-reading (some t) (some dt) e = refl

  on_parts-reading :
      (parts : List String) (e : Existing float)
      → on_parts float parts e ≡ with_reading (parts_reading parts) e
  on_parts-reading [] e = nothing_read e
  on_parts-reading (t ∷ []) e = nothing_read e
  on_parts-reading (t ∷ u ∷ []) e = nothing_read e
  on_parts-reading (t ∷ u ∷ dt ∷ parts) e = add_row-reading (float t) (float dt) e

  on_line-reading :
      (line : String) (e : Existing float) → on_line float line e ≡ with_reading (reading line) e
  on_line-reading line e = elim (Bool-cases (is_comment_line float line)) [
    | inl comment ↦ rw comment (nothing_read e)
    | inr other ↦ rw other (on_parts-reading (fields line) e)
  ]

  abbrev all_ts : List String → List F
  all_ts [] = []
  all_ts (line ∷ lines) = ts_of (reading line) ++ all_ts lines

  abbrev all_dts : List String → List F
  all_dts [] = []
  all_dts (line ∷ lines) = dts_of (reading line) ++ all_dts lines

  read_rows-all :
      (lines : List String) (e : Existing float)
      → read_rows float lines e ≡ record { ts = e.ts ++ all_ts lines; dts = e.dts ++ all_dts lines }
  unfolding read_rows
  read_rows-all [] e = nothing_read e
  read_rows-all (line ∷ lines) e =
      read_rows-all lines (on_line float line e)
      ∙ ap
          (λ (e : Existing float). record {
            ts = e.ts ++ all_ts lines;
            dts = e.dts ++ all_dts lines;
          })
          (on_line-reading line e)
      ∙ ap₂ (λ a b. record e { ts = a; dts = b })
          (append_assoc e.ts (ts_of (reading line)) (all_ts lines))
          (append_assoc e.dts (dts_of (reading line)) (all_dts lines))

  -- The rows of the file: each time with its skew.
  abbrev with_row : Reading → List (F × F) → List (F × F)
  with_row nothing rows = rows
  with_row (row t dt) rows = (t, dt) ∷ rows
  with_row (torn t) rows = rows

  abbrev pub rows_of : List String → List (F × F)
  rows_of [] = []
  rows_of (line ∷ lines) = with_row (reading line) (rows_of lines)

  abbrev pub IsWhole : Reading → Type 0
  IsWhole nothing = Unit
  IsWhole (row t dt) = Unit
  IsWhole (torn t) = ⊥

  abbrev pub AreWhole : List String → Type 0
  AreWhole [] = Unit
  AreWhole (line ∷ lines) = IsWhole (reading line) × AreWhole lines

  abbrev times : List (F × F) → List F
  times rows = map (λ r. r.0) rows

  abbrev skews : List (F × F) → List F
  skews rows = map (λ r. r.1) rows

  with_row-times :
      (r : Reading) (rows : List (F × F))
      → IsWhole r
      → ts_of r ++ times rows ≡ times (with_row r rows)
  with_row-times nothing rows h = refl
  with_row-times (row t dt) rows h = refl
  with_row-times (torn t) rows h = absurd h

  with_row-skews :
      (r : Reading) (rows : List (F × F)) → dts_of r ++ skews rows ≡ skews (with_row r rows)
  with_row-skews nothing rows = refl
  with_row-skews (row t dt) rows = refl
  with_row-skews (torn t) rows = refl

  all_ts-whole : (lines : List String) → AreWhole lines → all_ts lines ≡ times (rows_of lines)
  all_ts-whole [] h = refl
  all_ts-whole (line ∷ lines) (here, h) =
      ap (λ l. ts_of (reading line) ++ l) (all_ts-whole lines h)
      ∙ with_row-times (reading line) (rows_of lines) here

  all_dts-rows : (lines : List String) → all_dts lines ≡ skews (rows_of lines)
  all_dts-rows [] = refl
  all_dts-rows (line ∷ lines) =
      ap (λ l. dts_of (reading line) ++ l) (all_dts-rows lines)
      ∙ with_row-skews (reading line) (rows_of lines)

  all_ts-append : (xs ys : List String) → all_ts (xs ++ ys) ≡ all_ts xs ++ all_ts ys
  all_ts-append [] ys = refl
  all_ts-append (x ∷ xs) ys =
      ap (λ l. ts_of (reading x) ++ l) (all_ts-append xs ys)
      ∙ sym (append_assoc (ts_of (reading x)) (all_ts xs) (all_ts ys))

  all_ts-torn :
      (line : String) (lines : List String) (t : F)
      → reading line ≡ torn t
      → all_ts (line ∷ lines) ≡ t ∷ all_ts lines
  all_ts-torn line lines t e = ap (λ r. ts_of r ++ all_ts lines) e

  -- One line whose time reads as a float and whose skew does not, among lines that have both, leaves
  -- its time without a skew: from there on each skew stands with the time of the row before its own.
  pub load_existing-shifted :
      (front back : List String) (line : String) (t : F)
      → AreWhole front
      → reading line ≡ torn t
      → AreWhole back
      → ((load_existing float (some (front ++ line ∷ back))).ts
          ≡ times (rows_of front) ++ t ∷ times (rows_of back))
        × ((load_existing float (some (front ++ line ∷ back))).dts
            ≡ skews (rows_of (front ++ line ∷ back)))
  unfolding load_existing
  load_existing-shifted front back line t hf e hb =
      let empty : Existing float = record { ts = []; dts = [] } in
      let all = read_rows-all (front ++ line ∷ back) empty in
      (
        ap (λ (e : Existing float). e.ts) all
            ∙ all_ts-append front (line ∷ back)
            ∙ ap₂ (λ a b. a ++ b) (all_ts-whole front hf)
                (all_ts-torn line back t e ∙ ap (λ l. t ∷ l) (all_ts-whole back hb)),
        ap (λ (e : Existing float). e.dts) all ∙ all_dts-rows (front ++ line ∷ back),
      )
