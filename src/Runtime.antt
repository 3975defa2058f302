-- ===== src/Runtime.antt =====
-- The dispatcher of requests in the worker: `McpRequestRuntime` of
-- resources/scripts/napseer_mcp_server.py.
pub mod Dispatch
pub mod Table
pub mod Entries
pub mod Steps
pub mod Cancelled
pub mod Silence
pub mod Weights
pub mod Answers
mod Tests
