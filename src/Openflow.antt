-- ===== src/Openflow.antt =====
-- pkg/openflow: the client that programs the flow tables of a bridge.
mod Tests
pub mod Tables
pub mod Match
pub mod Flows
pub mod State
pub mod Caches
pub mod Client
pub mod Policy
