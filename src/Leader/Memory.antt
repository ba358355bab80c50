-- ===== src/Leader/Memory.antt =====
-- nodes/leaderNode.go: the leader's memory under the steps of the handlers.
pub mod Entries
pub mod Growth
pub mod Marks
pub mod Steps
pub mod WriteOnce
