-- ===== src/Perception.antt =====
-- Sensors: firmware/components/perception.
pub mod Camera
pub mod OneFrame
pub mod Touch
pub mod Debounce
pub mod Microphone
pub mod AudioBuffers
pub mod Tof
pub mod Ranging
pub mod Imu
pub mod Blind
pub mod Env
pub mod Climate
