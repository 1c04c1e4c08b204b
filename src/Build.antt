-- ===== src/Build.antt =====
-- python/fala/_build.py: the native libraries that the host builds on first use.
pub mod Cache
pub mod Builders
pub mod Exclusion
pub mod Winners
pub mod Progress
pub mod Kept
pub mod Libraries
pub mod Refreshed
mod Tests
pub mod Toolchain
pub mod Chosen
pub mod Sources
pub mod Pinned
pub mod Patched
pub mod SqliteFire
pub mod Ready
pub mod Extension
pub mod Settled
pub mod Imports
pub mod Imported
pub mod Left
pub mod Engine
pub mod Engaged
pub mod Places
pub mod Found
pub mod Digest
pub mod Unmoved
pub mod SourceTests
mod EngineTests
