-- ===== src/Protocol.antt =====
-- python/fala/protocol.py: the typed dialogue between a parent and a child.
pub mod Message
pub mod Wire
pub mod WellFormed
pub mod RoundTrip
pub mod Inversion
pub mod Exact
pub mod Dialogue
pub mod Answers
pub mod Identity
pub mod Tests
