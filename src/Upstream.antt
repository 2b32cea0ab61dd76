-- ===== src/Upstream.antt =====
-- src/upstream: the proxy servers, their health and the choice among them.
pub mod Server
pub mod Hash
pub mod Peers
pub mod Service
pub mod Tests
