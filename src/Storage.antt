-- ===== src/Storage.antt =====
-- The log buffer and firmware updates: firmware/components/storage.
pub mod LogBuf
pub mod Ota
pub mod Entries
pub mod Chain
pub mod Query
pub mod History
pub mod Scan
pub mod Replay
pub mod Overrun
