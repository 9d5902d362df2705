-- ===== src/Analyser/Series.antt =====
-- scripts/i2s-skew.py: lookups and differences of time series. `Lookup` is `nearest_value` and
-- `nearest_at`, `Gaps` is `split_gaps` and `trim_temps`, `Diffs` is `pair_diff` and `trim_diff`. The
-- other children prove.
pub mod Lookup
pub mod Sorted
pub mod Nearest
pub mod Within
pub mod Gaps
pub mod Segments
pub mod Diffs
pub mod Breaks
mod Examples
