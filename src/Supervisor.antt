-- ===== src/Supervisor.antt =====
-- resources/scripts/napseer_mcp_supervisor.py: the supervisor between the client and the worker.
pub mod Message
pub mod Worker
pub mod Requests
pub mod Invariant
pub mod Preserved
pub mod Answers
pub mod Sections
pub mod Interleaved
pub mod Moves
pub mod Kept
pub mod Anytime
pub mod Failing
pub mod Answering
pub mod Admission
pub mod Reverting
pub mod Loop
pub mod Responses
mod Tests
mod SharedTests
