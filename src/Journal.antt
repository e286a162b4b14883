-- ===== src/Journal.antt =====
-- The diagnostic journal (include/bmw_remote/infrastructure/diagnostic_journal.hpp and
-- src/infrastructure/diagnostic_journal.cpp): a ring of the last 32 records, and the records that
-- a decision leaves.
pub mod Ring
pub mod Records
pub mod Window
pub mod Faults
