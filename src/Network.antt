-- ===== src/Network.antt =====
-- The network layer of the terminal application, packages/network/src.
pub mod PeerConnection
pub mod RelayWorker
pub mod NetworkManager
