-- ===== src/Examples.antt =====
-- The tests: concrete packages for the parameters, runs of the code, and each theorem at a
-- concrete input.
pub mod Insertion
pub mod Toy
pub mod Files
pub mod Commits
pub mod Memory
pub mod Stored
pub mod Monitor
pub mod Rounds
pub mod Regular
pub mod Signing
pub mod Identity
pub mod Network
pub mod Started
pub mod Transactions
pub mod Registration
pub mod Honest
pub mod Run
pub mod Roots
pub mod Reveal
