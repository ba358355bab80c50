-- ===== src/Leader.antt =====
-- nodes/leaderNode.go and nodes/leaderNode_helper/: the leader node.
pub mod State
pub mod Memory
pub mod Nodes
pub mod Registration
pub mod Requests
pub mod MerkleRoot
pub mod Handlers
pub mod Secrets
pub mod Rounds
pub mod Monitor
pub mod Run
pub mod Outputs
