-- ===== src/DinSkew/Resumed.antt =====
-- scripts/din-skew.py: `load_existing`, on the lines of the file. How a text reads as a float is a
-- parameter.
use Prim.Native.String.{String}
use text.Mathlib.Text.{starts_with}
use esphome_snapcast.Base.{Bool, ◌||◌, Option, none, some, List, [], ◌∷◌, ◌++◌, if◌then◌else◌}
use esphome_snapcast.Analyser.CsvFile.Text.{fields}

module _ {F : Type 0} (float : String → Option F) where
  pub record Existing : Type 0 where
    pub ts : List F
    pub dts : List F

  -- `dts.append(float(parts[2]))`, behind `ts.append(float(parts[0]))`
  abbrev pub add_dt : Option F → Existing → Existing
  add_dt none e = e
  add_dt (some dt) e = record e { dts = e.dts ++ dt ∷ [] }

  abbrev pub add_row : Option F → Option F → Existing → Existing
  add_row none dt e = e
  add_row (some t) dt e = add_dt dt (record e { ts = e.ts ++ t ∷ [] })

  abbrev pub on_parts : List String → Existing → Existing
  on_parts (t ∷ u ∷ dt ∷ parts) e = add_row (float t) (float dt) e
  on_parts parts e = e

  abbrev pub is_comment_line : String → Bool
  is_comment_line line = starts_with line "#" || starts_with line "elapsed"

  abbrev pub on_line : String → Existing → Existing
  on_line line e = if is_comment_line line then e else on_parts (fields line) e

  unfoldable pub read_rows : List String → Existing → Existing
  read_rows [] e = e
  read_rows (line ∷ lines) e = read_rows lines (on_line line e)

  -- A file that does not exist is `none`.
  unfoldable pub load_existing : Option (List String) → Existing
  load_existing none = record { ts = []; dts = [] }
  load_existing (some lines) = read_rows lines (record { ts = []; dts = [] })
