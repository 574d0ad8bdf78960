-- ===== src/Localization.antt =====
-- The position estimate: firmware/components/localization/localization.c.
pub mod Estimate
pub mod Heading
pub mod Standstill
