-- ===== src/Discovery.antt =====
-- Package core/discovery: notes, accusations, peers, the rings and the view.
pub mod Types
pub mod Note
pub mod Accusation
pub mod Peer
pub mod Ring
pub mod Rings
pub mod View
pub mod Search
