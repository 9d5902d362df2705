-- ===== src/Analyser/Stream.antt =====
-- scripts/i2s-skew.py: the long-lived capture. `Blocks` is `stream_blocks`, which cuts the output
-- of sigrok into blocks; `Reader` is `stream_reader`, the thread that buffers them and its consumer.
-- The other children prove.
pub mod Blocks
pub mod Reads
pub mod Starvation
pub mod Reader
pub mod Traces
pub mod Schedules
pub mod Latching
mod Examples
