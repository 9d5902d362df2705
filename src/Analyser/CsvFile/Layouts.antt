-- ===== src/Analyser/CsvFile/Layouts.antt =====
-- scripts/i2s-skew.py: what `load_existing` accepts, and what it makes of a row that is cut off.
use Prim.Native.String.{String}
use text.Mathlib.Text.{◌==◌ as str_eq}
use text.Mathlib.TextEquality.{eq_iff}
use esphome_snapcast.Base.{
  ◌+◌, ◌≡◌, refl, ◌⊎◌, inl, inr, Bool, true, false, not, ◌&&◌, Option, none, some, List, [], ◌∷◌,
  arith, leb, if◌then◌else◌, length, length-append, ℕ, Bool-cases,
}
use esphome_snapcast.Analyser.CsvFile.Text.{fields, is_comment, is_empty}
use esphome_snapcast.Analyser.CsvFile.Columns.{FloatText, float_at}
use esphome_snapcast.Analyser.CsvFile.Existing.{
  Loaded, loaded, nothing_read, append_row, dump_values, own_values, dump_row, own_row, read_rows,
  schema, dump_schema, head_of, layout_refusal, load_existing,
}

module _ (ft : FloatText) (minus : ft.F → ft.F → ft.F) where
  open ft use {F}

  abbrev reads : Option F → Bool
  reads none = false
  reads (some _) = true

  -- A row whose times read and whose value does not.
  abbrev pub is_half_dump : List String → Bool
  is_half_dump f = leb 2 (length f) && (reads (float_at ft f 0) && not (reads (float_at ft f 1)))

  abbrev pub is_half_own : List String → Bool
  is_half_own f =
      leb 3 (length f)
      && (reads (float_at ft f 0) && (reads (float_at ft f 1) && not (reads (float_at ft f 2))))

  abbrev pub halves : (List String → Bool) → List String → ℕ
  halves is_half [] = 0
  halves is_half (line ∷ lines) =
      (if not (is_comment line) && is_half (fields line) then 1 else 0) + halves is_half lines

  -- How far a row sets the two lists apart.
  abbrev Widens : (List String → Loaded ft minus → Loaded ft minus) → (List String → Bool) → Type 0
  Widens row is_half =
      (f : List String) (r : Loaded ft minus)
      → length (row f r).ts + length r.ys
        ≡ length r.ts + length (row f r).ys + (if is_half f then 1 else 0)

  append_row-Widens :
      (t : F) (y : Option F) (r : Loaded ft minus)
      → length (append_row ft minus t y r).ts + length r.ys
        ≡ length r.ts + length (append_row ft minus t y r).ys + (if not (reads y) then 1 else 0)
  unfolding append_row
  append_row-Widens t none r = omega (arith, length-append r.ts (t ∷ []))
  append_row-Widens t (some y) r =
      omega (arith, length-append r.ts (t ∷ []), length-append r.ys (y ∷ []))

  dump_values-Widens :
      (t y : Option F) (r : Loaded ft minus)
      → length (dump_values ft minus t y r).ts + length r.ys
        ≡ length r.ts
          + length (dump_values ft minus t y r).ys
          + (if reads t && not (reads y) then 1 else 0)
  unfolding dump_values
  dump_values-Widens none y r = omega arith
  dump_values-Widens (some t) y r = append_row-Widens t y r

  own_values-Widens :
      (t u y : Option F) (r : Loaded ft minus)
      → length (own_values ft minus t u y r).ts + length r.ys
        ≡ length r.ts
          + length (own_values ft minus t u y r).ys
          + (if reads t && (reads u && not (reads y)) then 1 else 0)
  unfolding own_values
  own_values-Widens none u y r = omega arith
  own_values-Widens (some t) none y r = omega arith
  own_values-Widens (some t) (some u) y r = append_row-Widens t y r

  dump_row-Widens : Widens (dump_row ft minus) is_half_dump
  unfolding dump_row
  dump_row-Widens f r = elim (Bool-cases (leb 2 (length f))) [
    | inl enough ↦ rw enough (dump_values-Widens (float_at ft f 0) (float_at ft f 1) r)
    | inr few ↦ rw few (omega arith)
  ]

  own_row-Widens : Widens (own_row ft minus) is_half_own
  unfolding own_row
  own_row-Widens f r = elim (Bool-cases (leb 3 (length f))) [
    | inl enough ↦
        rw enough (own_values-Widens (float_at ft f 0) (float_at ft f 1) (float_at ft f 2) r)
    | inr few ↦ rw few (omega arith)
  ]

  read_rows-cons :
      (row : List String → Loaded ft minus → Loaded ft minus) (line : String) (lines : List String)
      (r : Loaded ft minus)
      → read_rows ft minus row (line ∷ lines) r
        ≡ read_rows ft minus row lines (if is_comment line then r else row (fields line) r)
  unfolding read_rows
  read_rows-cons row line lines r = refl

  read_rows-Widens :
      (row : List String → Loaded ft minus → Loaded ft minus) (is_half : List String → Bool)
      → Widens row is_half
      → (lines : List String) (r : Loaded ft minus)
      → length (read_rows ft minus row lines r).ts + length r.ys
        ≡ length r.ts + length (read_rows ft minus row lines r).ys + halves is_half lines
  read_rows-Widens row is_half w [] r = unfold read_rows in omega arith
  read_rows-Widens row is_half w (line ∷ lines) r = elim (Bool-cases (is_comment line)) [
    | inl comment ↦
        rw (read_rows-cons row line lines r, comment)
          (omega (arith, read_rows-Widens row is_half w lines r))
    | inr plain ↦
        rw (read_rows-cons row line lines r, plain)
          (omega
            (arith, w (fields line) r, read_rows-Widens row is_half w lines (row (fields line) r)))
  ]

  -- The rows whose times read and whose value does not, by the columns of the file.
  pub half_rows : Option (List String) → ℕ
  half_rows none = 0
  half_rows (some lines) =
      if str_eq (head_of lines) dump_schema
      then halves is_half_dump lines
      else halves is_half_own lines

  -- The times and the values that `load_existing` returns are out of step by exactly the number of
  -- rows whose time reads and whose value does not: such a row adds a time alone.
  pub load_existing-half_rows :
      (file : Option (List String)) (for_append : Bool) (r : Loaded ft minus)
      → load_existing ft minus file for_append ≡ loaded r
      → length r.ts ≡ length r.ys + half_rows file
  unfolding load_existing half_rows
  load_existing-half_rows none for_append r run = ground arith
  load_existing-half_rows (some lines) for_append r run = ground (
    arith,
    read_rows-Widens (dump_row ft minus) is_half_dump dump_row-Widens lines (nothing_read ft minus),
    read_rows-Widens (own_row ft minus) is_half_own own_row-Widens lines (nothing_read ft minus),
  )

  -- A file is only opened to append to it if it has no header, the header of this very layout, or
  -- that of a dump of the skew; one with an older header is refused.
  pub load_existing-for_append :
      (lines : List String) (r : Loaded ft minus)
      → load_existing ft minus (some lines) true ≡ loaded r
      → (is_empty (head_of lines) ≡ true) ⊎ (head_of lines ≡ schema) ⊎ (head_of lines ≡ dump_schema)
  unfolding load_existing layout_refusal
  load_existing-for_append lines r run =
      ground (arith, eq_iff (head_of lines) schema, eq_iff (head_of lines) dump_schema)
