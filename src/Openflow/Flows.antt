-- ===== src/Openflow/Flows.antt =====
-- The flow generators of pkg/openflow/pipeline.go.
pub mod Forwarding
pub mod Guards
pub mod Cluster
pub mod Conjunctions
