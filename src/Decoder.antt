-- ===== src/Decoder.antt =====
-- scripts/decoders/i2s_skew/pd.py: the PulseView decoder of two I2S buses. `Bus` is the slot
-- decoding of one bus, `Loop` the wait loop over both, `Window` the measurement of one window.
-- The other children prove what they are named for.
pub mod Bus
pub mod Slots
pub mod Words
pub mod Correlation
pub mod Window
pub mod Pairs
pub mod Verdicts
pub mod Outcomes
pub mod Loop
pub mod Flags
pub mod Dispatch
pub mod CsvStream
pub mod Rounds
mod Examples
