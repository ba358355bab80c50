-- ===== src/CommitReveal.antt =====
-- commit-reveal2/: commitments, the Merkle root and the reveal order.
pub mod Commit
pub mod Merkle
pub mod RevealOrder
