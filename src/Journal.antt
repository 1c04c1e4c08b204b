-- ===== src/Journal.antt =====
-- python/fala/read.py: bounded reads of a journal.
pub mod Records
pub mod Reads
pub mod Limits
pub mod Spelling
pub mod Errors
pub mod Renames
pub mod Whole
mod Tests
