-- ===== src/Motion.antt =====
-- Motion of the robot: firmware/components/motion.
pub mod Obstacle
pub mod Hysteresis
pub mod MotorCtl
pub mod Wheels
pub mod Creep
pub mod Decisions
pub mod MotorSafety
pub mod Timed
pub mod Servo
pub mod ServoSafety
pub mod ServoRamp
