-- ===== src/Diag.antt =====
-- Diagnostics: firmware/components/diagnostic/log_upload.c.
pub mod LogRing
pub mod RingView
pub mod Upload
