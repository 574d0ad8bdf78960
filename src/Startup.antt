-- ===== src/Startup.antt =====
-- How the robot starts: firmware/main.
pub mod Boot
pub mod Order
