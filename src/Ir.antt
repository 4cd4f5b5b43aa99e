-- ===== src/Ir.antt =====
-- The package ir: the documents that compilers produce and passes read.
pub mod Decimal
pub mod BigVal
pub mod Diagnostic
pub mod Inferred
pub mod Composition
pub mod Ids
pub mod Exposure
pub mod WalkPath
