-- ===== src/Validation.antt =====
-- src/utils/validateSyncItem.ts: the contract checks on what is enqueued.
pub mod Url
pub mod Issues
pub mod Laws
pub mod Reports
pub mod Codes
pub mod Tests
