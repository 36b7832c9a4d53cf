-- ===== src/Comm.antt =====
-- The package comm/: what a node uses to prove who it is.
pub mod CryptoUnit
pub mod Connections
pub mod Udp
