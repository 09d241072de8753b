-- ===== src/Cniserver.antt =====
-- pkg/cniserver: how the network interface of a pod is set up and taken away.
pub mod Interfaces
pub mod Configured
pub mod Removed
pub mod Ipam
pub mod Routes
pub mod Requests
pub mod Handlers
pub mod Responded
pub mod Deleted
pub mod PodConfiguration
mod Tests
