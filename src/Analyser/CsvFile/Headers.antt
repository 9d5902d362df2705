-- ===== src/Analyser/CsvFile/Headers.antt =====
-- scripts/i2s-skew.py: what a header in the middle of a file, and a row that is cut off, do to the
-- columns read.
use Prim.Native.String.{String}
use mathlib.Core.List.{append_assoc}
use esphome_snapcast.Base.{
  ℕ, ◌-◌, ◌<◌, ◌≡◌, refl, ◌∙◌, ap, sym, inl, inr, true, false, ◌||◌, Option, none, some, List, [],
  ◌∷◌, ◌++◌, ◌⊎◌, ◌≢◌, arith, length, if◌then◌else◌, Bool-cases,
}
use esphome_snapcast.Analyser.CsvFile.Text.{fields, is_header, is_comment, index_of}
use esphome_snapcast.Analyser.CsvFile.Columns.{
  FloatText, Header, column_row, load_column_from, load_column, Rates, going, ended, no_points,
  RateRow, points, no_rates, raises, after_row, rate_row, rate_data, rate_line, load_rates_from,
  load_rates,
}

module _ (ft : FloatText) (name : String) where
  skip_step :
      (header : Header) (line : String) (lines : List String)
      → is_header line || is_comment line ≡ true
      → (header' : Header) × ((rest : List String)
          → load_column_from ft name header (line ∷ rest) ≡ load_column_from ft name header' rest)
  unfolding load_column_from
  skip_step header line lines h =
      let header' : Header = if is_header line then some (fields line) else header in
      (header', λ rest. rw h refl)

  row_step :
      (header : Header) (line : String)
      → is_header line || is_comment line ≡ false
      → (rest : List String)
      → load_column_from ft name header (line ∷ rest)
        ≡ column_row ft name header line ++ load_column_from ft name header rest
  unfolding load_column_from
  row_step header line h rest = ground arith

  header_step :
      (header : Header) (line : String) (rest : List String)
      → is_header line ≡ true
      → load_column_from ft name header (line ∷ rest)
        ≡ load_column_from ft name (some (fields line)) rest
  unfolding load_column_from
  header_step header line rest h = rw h refl

  column_from-append :
      (header : Header) (xs : List String) (line : String) (ys : List String)
      → is_header line ≡ true
      → load_column_from ft name header (xs ++ line ∷ ys)
        ≡ load_column_from ft name header xs ++ load_column_from ft name none (line ∷ ys)
  column_from-append header [] line ys h =
      header_step header line ys h
      ∙ sym (header_step none line ys h)
      ∙ unfold load_column_from in refl
  column_from-append header (x ∷ xs) line ys h = elim (Bool-cases (is_header x || is_comment x)) [
    | inl skipped ↦
        let (header', step) = skip_step header x xs skipped in
        step (xs ++ line ∷ ys)
        ∙ column_from-append header' xs line ys h
        ∙ ap (λ r. r ++ load_column_from ft name none (line ∷ ys)) (sym (step xs))
    | inr row ↦
        row_step header x row (xs ++ line ∷ ys)
        ∙ ap (λ r. column_row ft name header x ++ r) (column_from-append header xs line ys h)
        ∙ sym (
            append_assoc (column_row ft name header x) (load_column_from ft name header xs)
              (load_column_from ft name none (line ∷ ys)))
        ∙ ap (λ r. r ++ load_column_from ft name none (line ∷ ys)) (sym (row_step header x row xs))
  ]

  -- A header starts afresh: what a file has from one on reads as a file of its own, whatever columns
  -- the rows before it had.
  pub load_column-append :
      (xs : List String) (line : String) (ys : List String)
      → is_header line ≡ true
      → load_column ft (some (xs ++ line ∷ ys)) name
        ≡ load_column ft (some xs) name ++ load_column ft (some (line ∷ ys)) name
  unfolding load_column
  load_column-append xs line ys h = column_from-append none xs line ys h

module _ (ft : FloatText) where
  -- A row of the data, cut off before the last field but one.
  pub record IsTorn (cols : List String) (line : String) : Type 0 where
    pub no_header : is_header line ≡ false
    pub no_comment : is_comment line ≡ false
    pub short : length (fields line) < length cols - 1

  -- No line changes the header.
  abbrev pub NoHeader : List String → Type 0
  NoHeader [] = Unit
  NoHeader (line ∷ lines) = (is_header line ≡ false) × NoHeader lines

  torn_row :
      (cols : List String) (r : Rates ft) (line : String) (lines : List String)
      → IsTorn cols line
      → load_rates_from ft (some cols) r (line ∷ lines) ≡ some (no_points ft)
  unfolding load_rates_from rate_line rate_data rate_row
  torn_row cols r line lines torn = ground arith

  after_row-cases :
      (cols : List String) (r : Rates ft) (row : RateRow ft)
      → row ≢ raises
      → ((r' : Rates ft) × (after_row ft (some cols) r row ≡ going (some cols) r'))
        ⊎ (after_row ft (some cols) r row ≡ ended (some (no_points ft)))
  after_row-cases cols r (points (pa, pb)) h =
      inl (record { rate_a = r.rate_a ++ pa; rate_b = r.rate_b ++ pb }, refl)
  after_row-cases cols r no_rates h = inr refl
  after_row-cases cols r raises h = absurd (h refl)

  rate_row-ne_raises :
      (cols f : List String) (ib : ℕ)
      → index_of "fs_b_hz" cols ≡ some ib
      → rate_row ft cols f ≢ raises
  unfolding rate_row
  rate_row-ne_raises cols f ib has_b = ground arith

  -- A line of the data goes on with the header of before, or ends the function without points.
  line_step :
      (cols : List String) (ib : ℕ) (r : Rates ft) (line : String)
      → index_of "fs_b_hz" cols ≡ some ib
      → is_header line ≡ false
      → ((r' : Rates ft) × (rate_line ft (some cols) r line ≡ going (some cols) r'))
        ⊎ (rate_line ft (some cols) r line ≡ ended (some (no_points ft)))
  unfolding rate_line rate_data
  line_step cols ib r line has_b plain = elim (Bool-cases (is_comment line)) [
    | inl comment ↦ inl (r, rw (plain, comment) refl)
    | inr row ↦
        rw (plain, row)
          (after_row-cases cols r (rate_row ft cols (fields line))
            (rate_row-ne_raises cols (fields line) ib has_b))
  ]

  going_step :
      (header header' : Header) (r r' : Rates ft) (line : String) (lines : List String)
      → rate_line ft header r line ≡ going header' r'
      → load_rates_from ft header r (line ∷ lines) ≡ load_rates_from ft header' r' lines
  unfolding load_rates_from
  going_step header header' r r' line lines e = ground (arith, e)

  ended_step :
      (header : Header) (r : Rates ft) (result : Option (Rates ft)) (line : String)
      (lines : List String)
      → rate_line ft header r line ≡ ended result
      → load_rates_from ft header r (line ∷ lines) ≡ result
  unfolding load_rates_from
  ended_step header r result line lines e = ground (arith, e)

  load_rates_from-torn :
      (cols : List String) (ib : ℕ) (r : Rates ft) (xs : List String) (line : String)
      (ys : List String)
      → index_of "fs_b_hz" cols ≡ some ib
      → NoHeader xs
      → IsTorn cols line
      → load_rates_from ft (some cols) r (xs ++ line ∷ ys) ≡ some (no_points ft)
  load_rates_from-torn cols ib r [] line ys has_b plain torn = torn_row cols r line ys torn
  load_rates_from-torn cols ib r (x ∷ xs) line ys has_b (plain, plains) torn =
      elim (line_step cols ib r x has_b plain) [
        | inl (r', e) ↦
            going_step (some cols) (some cols) r r' x (xs ++ line ∷ ys) e
            ∙ load_rates_from-torn cols ib r' xs line ys has_b plains torn
        | inr e ↦ ended_step (some cols) r (some (no_points ft)) x (xs ++ line ∷ ys) e
      ]

  -- One row that is cut off, wherever it stands among the rows of a file with both rate columns,
  -- leaves no rate of either board, those of all the whole rows before it included.
  pub load_rates-torn :
      (header : String) (ib : ℕ) (xs : List String) (line : String) (ys : List String)
      → is_header header ≡ true
      → index_of "fs_b_hz" (fields header) ≡ some ib
      → NoHeader xs
      → IsTorn (fields header) line
      → load_rates ft (some (header ∷ (xs ++ line ∷ ys))) ≡ some (no_points ft)
  unfolding load_rates rate_line
  load_rates-torn header ib xs line ys h has_b plain torn =
      going_step none (some (fields header)) (no_points ft) (no_points ft) header (xs ++ line ∷ ys)
        (rw h refl)
      ∙ load_rates_from-torn (fields header) ib (no_points ft) xs line ys has_b plain torn
