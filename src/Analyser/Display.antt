-- ===== src/Analyser/Display.antt =====
-- scripts/i2s-skew.py: how a plot becomes a file, and the server of the live view.
pub mod Escape
pub mod Svg
pub mod Clips
pub mod Files
pub mod Atomic
pub mod Server
pub mod Clients
mod Examples
