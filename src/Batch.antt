-- ===== src/Batch.antt =====
pub mod Plan
pub mod Schedule
pub mod Progress
pub mod Ready
pub mod Waves
pub mod Skip
pub mod Rounds
pub mod Complete
pub mod Ranks
pub mod Barriers
pub mod Width
mod Tests
