-- ===== src/Feature.antt =====
-- crates/runtime/src/feature.rs: what a declarative feature does to the process, over Ctx.
pub mod Strategy
pub mod Snapshot
pub mod Restored
pub mod Matching
pub mod Stamped
pub mod HeapScan
pub mod Unique
pub mod Examples
