-- ===== src/Terminal.antt =====
-- resources/scripts/terminal: the PTY sessions of the gateway.
pub mod Session
pub mod Replay
pub mod Reader
pub mod Input
pub mod Manager
mod Tests
