-- ===== src/Barrier.antt =====
-- barrier: what the engine does with panics and texts of code that it does not own.
pub mod Text
