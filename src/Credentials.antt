-- ===== src/Credentials.antt =====
-- The credentials of the user and of the project: resources/scripts/napseer_credentials.py.
pub mod Store
pub mod Logout
mod Tests
