-- ===== src/Analyser/CsvFile/Columns.antt =====
-- scripts/i2s-skew.py: `load_column` and `load_rates`. A file is its lines, or nothing if there is
-- none; how a text reads as a float is a parameter.
use Prim.Native.String.{String}
use esphome_snapcast.Base.{
  ℕ, ◌-◌, Bool, ◌&&◌, ◌||◌, Option, none, some, List, [], ◌∷◌, ◌++◌, ltb, if◌then◌else◌, length,
  get_elem?,
}
use esphome_snapcast.Analyser.CsvFile.Text.{fields, is_header, is_comment, index_of}

-- `float` of a text, with the tests that the readers make of the result.
pub record FloatText : Type 1 where
  pub F : Type 0
  pub float : String → Option F
  pub is_finite : F → Bool
  pub is_positive : F → Bool

-- The header read last, if there was one.
abbrev pub Header : Type 0
Header = Option (List String)

module _ (ft : FloatText) where
  open ft use {F, float, is_finite, is_positive}

  -- `float(f[i])`; `none` is a ValueError or an IndexError.
  unfoldable pub float_at : List String → ℕ → Option F
  float_at f i = elim (get_elem? f i) [ none ↦ none | some word ↦ float word ]

  -- The point of one row, of the column at `i`.
  unfoldable pub point_at : ℕ → List String → List (F × F)
  point_at i f = elim (float_at f i) [
    | none ↦ []
    | some v ↦ if is_finite v then elim (float_at f 0) [ none ↦ [] | some t ↦ (t, v) ∷ [] ] else []
  ]

  -- One row behind the header `cols`.
  unfoldable pub column_row : String → Header → String → List (F × F)
  unfolding point_at
  column_row name none line = []
  column_row name (some cols) line = elim (index_of name cols) [
    | none ↦ []
    | some i ↦ point_at i (fields line)
  ]

  -- `load_column`, from a line on, with the header read last
  unfoldable pub load_column_from : String → Header → List String → List (F × F)
  load_column_from name header [] = []
  load_column_from name header (line ∷ lines) =
      let header' = if is_header line then some (fields line) else header in
      let rest = load_column_from name header' lines in
      if is_header line || is_comment line then rest else column_row name header line ++ rest

  unfoldable pub load_column : Option (List String) → String → List (F × F)
  unfolding load_column_from
  load_column none name = []
  load_column (some lines) name = load_column_from name none lines

  -- `dst.append((t, v))`, if `v` is a rate
  unfoldable pub rate_point : F → F → List (F × F)
  rate_point t v = if is_finite v && is_positive v then (t, v) ∷ [] else []

  -- The points of a row: a column that does not read ends the row, and keeps what came before.
  unfoldable pub rate_points : ℕ → ℕ → List String → List (F × F) × List (F × F)
  unfolding rate_point
  rate_points ia ib f = elim (float_at f 0) [
    | none ↦ ([], [])
    | some t ↦ elim (float_at f ia) [
      | none ↦ ([], [])
      | some va ↦ elim (float_at f ib) [
        | none ↦ (rate_point t va, [])
        | some vb ↦ (rate_point t va, rate_point t vb)
      ]
    ]
  ]

  -- What a row does: it has points, its file has no rates (`return [], []`), or it raises, since
  -- `cols.index("fs_b_hz")` has no `try` around it.
  pub data RateRow : Type 0 where
    points : List (F × F) × List (F × F) → RateRow
    no_rates : RateRow
    raises : RateRow

  unfoldable pub rate_row : List String → List String → RateRow
  unfolding rate_points
  rate_row cols f = elim (index_of "fs_a_hz" cols) [
    | none ↦ no_rates
    | some ia ↦
        if ltb (length f) (length cols - 1) then no_rates else elim (index_of "fs_b_hz" cols) [
          | none ↦ raises
          | some ib ↦ points (rate_points ia ib f)
        ]
  ]

  pub record Rates : Type 0 where
    pub rate_a : List (F × F)
    pub rate_b : List (F × F)

  -- Behind a line: the header and the points so far, or the end of the function, with what it
  -- returns (nothing if it raises).
  pub data RateStep : Type 0 where
    going : Header → Rates → RateStep
    ended : Option Rates → RateStep

  abbrev pub no_points : Rates
  no_points = record { rate_a = []; rate_b = [] }

  abbrev pub after_row : Header → Rates → RateRow → RateStep
  after_row header r (points (pa, pb)) =
      going header (record { rate_a = r.rate_a ++ pa; rate_b = r.rate_b ++ pb })
  after_row header r no_rates = ended (some no_points)
  after_row header r raises = ended none

  -- A line that is neither a header nor a comment.
  unfoldable pub rate_data : Header → Rates → String → RateStep
  unfolding rate_row
  rate_data none r line = going none r
  rate_data (some cols) r line = after_row (some cols) r (rate_row cols (fields line))

  unfoldable pub rate_line : Header → Rates → String → RateStep
  unfolding rate_data
  rate_line header r line =
      if is_header line
      then going (some (fields line)) r
      else if is_comment line
      then going header r
      else rate_data header r line

  -- `load_rates`, from a line on; `none` is the exception.
  unfoldable pub load_rates_from : Header → Rates → List String → Option Rates
  load_rates_from header r [] = some r
  load_rates_from header r (line ∷ lines) = elim (rate_line header r line) [
    | going header' r' ↦ load_rates_from header' r' lines
    | ended result ↦ result
  ]

  unfoldable pub load_rates : Option (List String) → Option Rates
  unfolding load_rates_from
  load_rates none = some no_points
  load_rates (some lines) = load_rates_from none no_points lines
