-- ===== src/Analyser/CsvFile.antt =====
-- scripts/i2s-skew.py: reading back the CSV file that the analyser writes. `Text` splits a line,
-- `Columns` is `load_column` and `load_rates`, `Existing` is `load_existing`. The other children
-- prove.
pub mod Text
pub mod Columns
pub mod Headers
pub mod Existing
pub mod Layouts
mod Examples
