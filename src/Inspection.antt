-- ===== src/Inspection.antt =====
-- python/fala/inspection.py: read-only inspection of the process leases of a journal.
pub mod Clock
pub mod Rows
pub mod Leases
pub mod Accounting
pub mod Complete
pub mod Partition
pub mod Census
pub mod Report
pub mod Safe
pub mod Documents
mod Tests
