-- ===== src/SerialLog.antt =====
-- scripts/serial-log.py: the log of a USB serial port, with a time before each line.
pub mod Lines
pub mod Port
pub mod Logged
pub mod Runs
mod Examples
