-- ===== src/Types.antt =====
-- The data model of the library: src/types and src/errors.
pub mod Number
pub mod Enums
pub mod Value
pub mod Errors
pub mod Sync
