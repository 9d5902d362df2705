-- ===== src/DinSkew.antt =====
-- scripts/din-skew.py: the skew of two boards from their DIN lines, on a two-channel scope.
pub mod Schmitt
pub mod Levels
pub mod BitPhase
pub mod Periods
pub mod Unwrapped
pub mod Blocks
pub mod Settled
pub mod Agreement
pub mod Measure
pub mod Sessions
pub mod Resumed
pub mod Shifted
pub mod Edges
pub mod Straddled
pub mod Interpolated
mod Examples
mod EdgeExamples
