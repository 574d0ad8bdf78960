-- ===== src/Conn.antt =====
-- The connection manager and its links: firmware/components/comm.
pub mod Heartbeat
pub mod HeartbeatSync
pub mod Manager
pub mod Graph
pub mod Timers
pub mod Links
pub mod Fragments
pub mod Wifi
pub mod Bridge
