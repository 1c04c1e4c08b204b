-- ===== src/Conformance.antt =====
-- python/fala/conformance.py: the checkers that effector packages call without a journal.
pub mod Keywords
pub mod Payload
pub mod Termination
pub mod Reports
pub mod Pointers
pub mod Solved
pub mod Results
pub mod Corpus
pub mod Harness
mod Tests
pub mod Verdicts
pub mod Pathless
pub mod Meaning
pub mod Accepted
pub mod Complete
