-- ===== src/Config.antt =====
-- components/snapclient/__init__.py: the configuration of the snapclient hub. `Schema` is its
-- validation, `Codegen` the calls that `to_code` makes; the other children prove.
pub mod Schema
pub mod Codegen
pub mod Words
pub mod Accepts
pub mod Values
pub mod Emits
mod Examples
