-- ===== src/Agent.antt =====
-- pkg/clusterlink/agent-manager/network-manager/network_manager.go: the agent that brings the
-- network of one node to the state that its `NodeConfig` asks for.
pub mod Diff
pub mod Network
pub mod Sync
pub mod Tests
