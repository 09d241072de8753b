-- ===== src/Binding.antt =====
-- pkg/ovs/openflow: flow tables, flow builders and the ovs-ofctl commands that realise them.
mod Tests
pub mod Switch
pub mod Flow
pub mod Builder
pub mod Action
