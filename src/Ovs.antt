-- ===== src/Ovs.antt =====
-- pkg/ovs: the client of the database of Open vSwitch.
pub mod Errors
pub mod Values
pub mod PortData
pub mod Database
pub mod Results
pub mod Bridge
pub mod Ports
pub mod Refused
mod Tests
