-- ===== src/Utils.antt =====
-- utils/: requests and their signatures, and the stores of both kinds of node.
pub mod Requests
pub mod Signature
pub mod LeaderNodeData
pub mod Commit
pub mod PeerId
pub mod Network
pub mod NodeInfo
pub mod Clients
