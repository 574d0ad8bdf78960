-- ===== src/Examples.antt =====
-- The theorems at concrete inputs.
mod Autonomy
mod Buffer
mod Codec
mod Messages
mod Outputs
mod Drivers
mod Fixed
mod Links
mod Logs
mod Powering
mod Robot
mod Sensors
mod Starting
