-- ===== src/Protocol.antt =====
-- nodes/leaderNode.go with nodes/regularNode.go: what a regular node sends, at the leader.
pub mod Honest
pub mod Reveal
