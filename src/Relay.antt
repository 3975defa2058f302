-- ===== src/Relay.antt =====
-- The relay of the gateway in resources/scripts/napseer_mcp_server.py: websocket frames and the
-- encryption of what they carry.
pub mod Socket
pub mod Frame
pub mod FrameTrip
pub mod Aes
pub mod Gcm
pub mod Counter
pub mod Sealing
mod Tests
