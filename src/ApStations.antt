-- ===== src/ApStations.antt =====
-- scripts/ap-stations.py: the stations of a router's topology, the traffic that each of them had in a
-- window, and the session with the router.
pub mod Json
pub mod Topology
pub mod Found
pub mod Listed
pub mod Session
pub mod Served
pub mod Elements
pub mod Traffic
pub mod Baselines
pub mod Counted
pub mod Grouped
mod Examples
