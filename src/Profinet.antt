-- ===== src/Profinet.antt =====
-- internal/profinet and internal/profinetcontroller: discovery and configuration of PROFINET devices, and
-- the submodules that a controller and a device agree on.
pub mod Dcp
pub mod Responder
mod Examples
pub mod Submodules
pub mod Subscription
pub mod Relation
