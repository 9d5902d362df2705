-- ===== src/SyncDelta.antt =====
-- scripts/sync-delta.py: the reports of one log on a time axis that runs over midnight.
pub mod Reports
pub mod Unwrapped
mod Examples
