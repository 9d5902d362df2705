-- ===== src/Analyser.antt =====
-- scripts/i2s-skew.py: the offline and live analyser of two I2S buses. Each child is one part.
pub mod Failures
pub mod FailureRuns
pub mod Stream
pub mod CsvFile
pub mod Series
pub mod LogEvents
pub mod DeviceClock
pub mod Display
mod Examples
