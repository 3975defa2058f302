-- ===== src/Spake.antt =====
-- The gateway's side of SPAKE2 over P-256: resources/scripts/napseer_spake2.py.
pub mod Hex
pub mod Curve
pub mod Point
pub mod Keys
pub mod Expand
pub mod Transcript
pub mod PointTrip
pub mod Scalars
mod Tests
