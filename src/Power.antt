-- ===== src/Power.antt =====
-- Power of the robot: firmware/components/power.
pub mod Battery
pub mod Charging
pub mod Manager
pub mod States
pub mod Sleep
