-- ===== src/Analyser/CsvFile/Examples.antt =====
-- scripts/i2s-skew.py: CSV files read back at concrete inputs.
use Prim.Native.String.{String, len}
use esphome_snapcast.Base.{
  ℕ, ◌-◌, ◌+◌, ◌≡◌, refl, ◌⊎◌, true, none, some, List, [], ◌∷◌, ◌++◌, arith, length, if◌then◌else◌,
}
use esphome_snapcast.Analyser.CsvFile.Text.{is_empty, fields, index_of}
use esphome_snapcast.Analyser.CsvFile.Columns.{
  FloatText, load_column, load_column_from, column_row, point_at, float_at, load_rates, no_points,
}
use esphome_snapcast.Analyser.CsvFile.Headers.{IsTorn, load_rates-torn}
use esphome_snapcast.Analyser.CsvFile.Existing.{
  Loaded, loaded, load_existing, schema, dump_schema, head_of, append_row, own_values,
}
use esphome_snapcast.Analyser.CsvFile.Layouts.{
  half_rows, load_existing-half_rows, load_existing-for_append,
}

-- Every text but the empty one reads, as its length.
abbrev lengths : FloatText
lengths = record {
  F = ℕ;
  float = λ s. if is_empty s then none else some (len s);
  is_finite = λ v. true;
  is_positive = λ v. true;
}

abbrev minus : ℕ → ℕ → ℕ
minus a b = a - b

abbrev old_header : String
old_header = "elapsed_s,ppm"

abbrev new_header : String
new_header = "elapsed_s,unix_s,ppm"

two_headers :
    load_column lengths (some (old_header ∷ "1,55" ∷ new_header ∷ "1,2,333" ∷ [])) "ppm"
    ≡ (1, 2) ∷ (1, 3) ∷ []
unfolding load_column load_column_from column_row point_at float_at fields index_of
two_headers = refl

abbrev rates_header : String
rates_header = "elapsed_s,fs_a_hz,fs_b_hz,reason"

cut_off-IsTorn : IsTorn lengths (fields rates_header) "2,44"
unfolding fields
cut_off-IsTorn = record { no_header = refl; no_comment = refl; short = omega arith }

load_rates-torn_example :
    load_rates lengths (some (rates_header ∷ (("1,44,44,x" ∷ []) ++ "2,44" ∷ [])))
    ≡ some (no_points lengths)
load_rates-torn_example =
    load_rates-torn lengths rates_header 2 ("1,44,44,x" ∷ []) "2,44" [] refl
      (unfold fields index_of in refl) (refl, tt) cut_off-IsTorn

abbrev half_file : List String
half_file = schema ∷ "1,22,333" ∷ "4,55,\n" ∷ []

abbrev half_read : Loaded lengths minus
half_read = record { ts = 1 ∷ 1 ∷ []; ys = 3 ∷ []; anchor = some 1 }

half_loaded : load_existing lengths minus (some half_file) true ≡ loaded half_read
unfolding load_existing own_values append_row float_at fields
half_loaded = refl

load_existing-half_rows_example :
    length half_read.ts ≡ length half_read.ys + half_rows lengths minus (some half_file)
load_existing-half_rows_example =
    load_existing-half_rows lengths minus (some half_file) true half_read half_loaded

load_existing-for_append_example :
    (is_empty (head_of half_file) ≡ true)
    ⊎ (head_of half_file ≡ schema)
    ⊎ (head_of half_file ≡ dump_schema)
load_existing-for_append_example =
    load_existing-for_append lengths minus half_file half_read half_loaded
