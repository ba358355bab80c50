-- ===== src/Regular.antt =====
-- nodes/regularNode.go and nodes/regularNode_helper: the regular node.
pub mod State
pub mod CvsSignature
pub mod Sends
pub mod Deposit
pub mod Rounds
pub mod Secrets
pub mod Node
