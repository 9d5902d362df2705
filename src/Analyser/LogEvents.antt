-- ===== src/Analyser/LogEvents.antt =====
-- scripts/i2s-skew.py: `parse_sync_events`, which turns the log of a board into events and series.
-- `Lines` is what the patterns match in a line, `Log` the state and the lists that are returned,
-- `DelayLoop`, `Servo` and `Marks` have a handler for each pattern, and `Parse` is the loop. The other
-- children prove.
pub mod Lines
pub mod Log
pub mod DelayLoop
pub mod Rows
pub mod Servo
pub mod Marks
pub mod Parse
pub mod Resume
pub mod WholeLines
pub mod Polls
pub mod Tails
pub mod Frames
pub mod MarkFrames
pub mod PatternFrames
pub mod Roles
pub mod Bursts
mod Examples
