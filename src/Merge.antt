-- ===== src/Merge.antt =====
-- compilers/openapi/internal/merge: what two declarations of one property say together.
pub mod Numbers
pub mod Constraints
pub mod Keywords
pub mod Admits
pub mod Visibility
pub mod Nullability
pub mod Formats
pub mod Bounds
mod Tests
