-- ===== src/Core/Safety.antt =====
-- core/: no sequence of messages, rounds and timeouts makes a node panic.
pub mod Invariant
pub mod Room
pub mod Live
pub mod Notes
pub mod Certificates
pub mod Accusations
pub mod Evaluation
pub mod Replies
pub mod Handler
pub mod Rounds
pub mod Monitor
pub mod Begin
