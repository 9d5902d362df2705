-- ===== src/Analyser/DeviceClock.antt =====
-- scripts/i2s-skew.py: the clocks of the boards on the axis of the host. `Place` has
-- `place_device_times`, `device_anchor` and `tod_to_unix`; the other children prove.
pub mod Place
pub mod Epochs
pub mod Placement
pub mod Days
mod Examples
