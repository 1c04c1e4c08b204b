-- ===== src/Sdk.antt =====
-- python/fala/sdk.py: the effector's side of the dialogue.
pub mod Inputs
pub mod Effector
pub mod Latest
pub mod Written
mod Tests
