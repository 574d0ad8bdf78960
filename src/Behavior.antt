-- ===== src/Behavior.antt =====
-- The behaviour engine and the offline mode: firmware/components/behavior.
pub mod Engine
pub mod Modes
pub mod Reach
pub mod Offline
pub mod Keywords
pub mod Autonomy
