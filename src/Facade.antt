-- ===== src/Facade.antt =====
-- src/index.tsx: the public functions over the native module.
pub mod Ops
pub mod Batch
pub mod Laws
pub mod Errors
pub mod Drain
pub mod Batches
pub mod Tests
