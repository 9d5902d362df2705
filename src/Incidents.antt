-- ===== src/Incidents.antt =====
-- scripts/diagnose-logs.py: the events of the boards' logs, the incidents that they make up, and the
-- failure plane of each incident of the fleet.
pub mod Clusters
pub mod Events
pub mod Build
pub mod Summaries
pub mod Fleet
pub mod Apart
pub mod Planes
mod Examples
