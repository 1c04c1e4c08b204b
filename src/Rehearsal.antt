-- ===== src/Rehearsal.antt =====
-- python/fala/rehearsal.py: a retention plan that is rehearsed on a snapshot of the journal.
pub mod Policy
pub mod Snapshot
pub mod Checks
pub mod Run
pub mod Marked
pub mod Database
pub mod Counters
mod Tests
