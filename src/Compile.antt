-- ===== src/Compile.antt =====
-- compilers/compile: what every compiler shares while it makes a document.
pub mod Types
pub mod Registry
pub mod Ids
