-- ===== src/Lifecycle.antt =====
-- python/fala/journal.py: the lifecycle operations on a journal.
pub mod Calls
pub mod Guards
pub mod Completing
mod Tests
pub mod Reply
pub mod Native
pub mod Committed
pub mod Desk
pub mod Working
mod NativeTests
mod DeskTests
