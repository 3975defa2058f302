-- ===== src/Schedule.antt =====
-- Cron schedules of the gateway in resources/scripts/napseer_mcp_server.py.
pub mod Text
pub mod Cron
pub mod Next
mod Tests
