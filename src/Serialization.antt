-- ===== src/Serialization.antt =====
-- src/utils/serializeSyncItem.ts and deserializeSyncItem.ts: items as JSON.
pub mod Items
pub mod Laws
pub mod RoundTrip
pub mod Tests
