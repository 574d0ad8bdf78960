-- ===== src/Bcp.antt =====
-- The BCP codec of the robot: firmware/components/bcp.
pub mod Ids
pub mod Types
pub mod Crc
pub mod Payload
pub mod Layout
pub mod Frame
pub mod Wire
pub mod DecodeLoop
pub mod Encoded
pub mod RoundTrip
pub mod Members
pub mod PayloadRoundTrip
pub mod Bounds
pub mod Helpers
pub mod Deltas
