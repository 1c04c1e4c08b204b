-- ===== src/Python.antt =====
-- The part of Python that the modules of python/fala are written in: exceptions, values, dicts,
-- comparison, decimal numerals and the JSON spelling.
pub mod Outcome
pub mod Number
pub mod Value
pub mod Text
pub mod Order
pub mod Json
pub mod Reordered
pub mod Tests
pub mod Effect
pub mod Keeps
