-- ===== src/Gateway.antt =====
-- The gateway of resources/scripts/napseer_mcp_server.py: its log and the output of its terminals.
pub mod Log
pub mod Output
mod Tests
