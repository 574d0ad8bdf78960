-- ===== src/Station.antt =====
-- The charging station: firmware/charging-station.
pub mod ChargeCtl
pub mod ChargeSafety
pub mod Loop
pub mod Signals
pub mod IrEncoder
pub mod Blink
pub mod Start
pub mod Reporter
pub mod Reports
