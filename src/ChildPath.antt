-- ===== src/ChildPath.antt =====
-- python/fala/child_path.py: the effector that runs a child path.
pub mod Plan
pub mod Driven
pub mod Linked
mod Tests
