-- ===== src/Engine/Cache.antt =====
-- engine/cache.go and the files beside it: what the engine keeps of a run, and when it answers from it.
pub mod Key
pub mod Entry
pub mod Reads
pub mod Serve
pub mod Prune
pub mod Ledger
pub mod Dir
mod Tests
