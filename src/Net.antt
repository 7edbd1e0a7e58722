-- ===== src/Net.antt =====
-- src/net/: the protocol of the server's connections.
pub mod Link
pub mod Response
pub mod Proc
pub mod Fdevents
pub mod Select
