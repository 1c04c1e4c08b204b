-- ===== src/Host.antt =====
-- python/fala/host.py: the operations that a Python program drives the native engine with.
mod Tests
mod CallTests
pub mod Directory
pub mod Restored
pub mod Tasks
pub mod Recording
pub mod Flights
pub mod Recorded
pub mod Memory
pub mod Built
pub mod Arguments
pub mod Calls
pub mod Requests
pub mod Answers
pub mod Package
pub mod Turns
pub mod Sent
