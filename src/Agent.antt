-- ===== src/Agent.antt =====
-- pkg/agent: the names of container interfaces, the store of interfaces, and the start of the agent.
pub mod Names
pub mod InterfaceStore
pub mod Nodes
pub mod Initializer
pub mod Options
pub mod Tests
