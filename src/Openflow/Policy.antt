-- ===== src/Openflow/Policy.antt =====
-- pkg/openflow/network_policy.go: the flows of network policy rules.
mod Tests
pub mod Contexts
pub mod Clauses
pub mod Rules
