-- ===== src/Analyser/CsvFile/Existing.antt =====
-- scripts/i2s-skew.py: `load_existing`. What it prints is left out.
use Prim.Native.String.{String}
use text.Mathlib.Text.{◌==◌ as str_eq}
use esphome_snapcast.Base.{
  Bool, true, false, ◌&&◌, Option, none, some, List, [], ◌∷◌, ◌++◌, leb, if◌then◌else◌, length,
  take,
}
use esphome_snapcast.Analyser.CsvFile.Text.{
  strip, split, rstrip, is_space, is_comma, is_empty, fields, is_header, is_comment,
}
use esphome_snapcast.Analyser.CsvFile.Columns.{FloatText, float_at}

abbrev pub schema : String
schema =
    "elapsed_s,unix_s,offset_ns,ppm,pcm_coef,frame_lag,rival,scatter_ns,fs_a_hz,fs_b_hz,phase_a_us,phase_b_us,ramp_a_ppm,ramp_b_ppm,crystal_a_ppm,crystal_b_ppm,dl_err_a_us,dl_err_b_us,dl_diff_us,trim_a_ppm,trim_b_ppm,int_a_ppm,int_b_ppm,rgate_a_us,rgate_b_us,reason"

abbrev pub dump_schema : String
dump_schema = "elapsed_s,skew_ns"

-- The first header, or the empty text.
unfoldable pub head_of : List String → String
head_of [] = ""
head_of (line ∷ lines) = let rest = head_of lines in if is_header line then strip line else rest

-- `[c for c in old_cols if c != "reason"]`
unfoldable pub body_of : List String → List String
body_of [] = []
body_of (c ∷ cols) = let rest = body_of cols in if str_eq c "reason" then rest else c ∷ rest

abbrev pub same_texts : List String → List String → Bool
same_texts [] [] = true
same_texts [] (y ∷ ys) = false
same_texts (x ∷ xs) [] = false
same_texts (x ∷ xs) (y ∷ ys) = str_eq x y && same_texts xs ys

-- Why the process exits.
pub data Refusal : Type 0 where
  would_mix_widths different_layout : Refusal

-- The test of a header that is not the one of a dump.
unfoldable pub layout_refusal : Bool → String → Option Refusal
unfolding body_of
layout_refusal for_append head =
    let old_body = body_of (split (rstrip is_comma (rstrip is_space head))) in
    if is_empty head
    then none
    else if str_eq head schema
    then none
    else if same_texts old_body (take (length old_body) (split schema))
    then (if for_append then some would_mix_widths else none)
    else some different_layout

module _ (ft : FloatText) (minus : ft.F → ft.F → ft.F) where
  open ft use {F}

  pub record Loaded : Type 0 where
    pub ts : List F
    pub ys : List F
    pub anchor : Option F

  pub data Existing : Type 0 where
    loaded : Loaded → Existing
    refused : Refusal → Existing

  abbrev pub nothing_read : Loaded
  nothing_read = record { ts = []; ys = []; anchor = none }

  -- `ts.append(t)`, then `ys.append(float(word))`, whose ValueError is passed over.
  unfoldable pub append_row : F → Option F → Loaded → Loaded
  append_row t none r = record r { ts = r.ts ++ t ∷ [] }
  append_row t (some y) r = record r { ts = r.ts ++ t ∷ []; ys = r.ys ++ y ∷ [] }

  -- A row of a dump.
  unfoldable pub dump_values : Option F → Option F → Loaded → Loaded
  unfolding append_row
  dump_values none y r = r
  dump_values (some t) y r = append_row t y r

  unfoldable pub dump_row : List String → Loaded → Loaded
  unfolding dump_values
  dump_row f r = if leb 2 (length f) then dump_values (float_at ft f 0) (float_at ft f 1) r else r

  abbrev pub first_anchor : Option F → F → Option F
  first_anchor none a = some a
  first_anchor (some anchor) a = some anchor

  abbrev pub anchor_if : Option F → F → Option F → Option F
  anchor_if none a anchor = anchor
  anchor_if (some y) a anchor = first_anchor anchor a

  -- A row of the program's own file: the anchor is set by the first row that reads whole.
  unfoldable pub own_values : Option F → Option F → Option F → Loaded → Loaded
  unfolding append_row
  own_values none un y r = r
  own_values (some el) none y r = r
  own_values (some el) (some un) y r = record (append_row el y r) {
    anchor = anchor_if y (minus un el) r.anchor;
  }

  unfoldable pub own_row : List String → Loaded → Loaded
  unfolding own_values
  own_row f r =
      if leb 3 (length f)
      then own_values (float_at ft f 0) (float_at ft f 1) (float_at ft f 2) r
      else r

  -- The lines that are neither a header nor a comment, each by `row`.
  unfoldable pub read_rows : (List String → Loaded → Loaded) → List String → Loaded → Loaded
  read_rows row [] r = r
  read_rows row (line ∷ lines) r =
      read_rows row lines (if is_comment line then r else row (fields line) r)

  -- `load_existing`
  unfoldable pub load_existing : Option (List String) → Bool → Existing
  unfolding read_rows dump_row own_row layout_refusal head_of
  load_existing none for_append = loaded nothing_read
  load_existing (some lines) for_append =
      let head = head_of lines in
      if str_eq head dump_schema
      then loaded (read_rows dump_row lines nothing_read)
      else elim (layout_refusal for_append head) [
        | some why ↦ refused why
        | none ↦ loaded (read_rows own_row lines nothing_read)
      ]
