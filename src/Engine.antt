-- ===== src/Engine.antt =====
-- The package engine: what a run does around the compiler and the passes.
pub mod Verdict
pub mod Passes
pub mod Stage
pub mod Cache
pub mod Whole
pub mod Spec
