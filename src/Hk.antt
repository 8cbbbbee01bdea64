-- ===== src/Hk.antt =====
-- Housekeeping entries and classes as the application reads them from text
-- (app/src/hk_entries.c).
pub mod Header
pub mod Entries
