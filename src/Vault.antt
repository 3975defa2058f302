-- ===== src/Vault.antt =====
-- The local vault of the gateway in resources/scripts/napseer_mcp_server.py: ChaCha20-Poly1305.
pub mod Chacha
pub mod Poly
pub mod Payload
pub mod Sealing
mod Tests
