-- ===== src/Hooks.antt =====
-- src/hooks and src/contexts: the React hooks and the provider component.
pub mod Runtime
pub mod Results
pub mod Connection
pub mod Listeners
pub mod Status
pub mod Queue
pub mod OfflineQueue
pub mod Snapshot
pub mod Events
pub mod Config
pub mod AutoSync
pub mod Provider
pub mod Catalogue
pub mod Frozen
pub mod Agreement
pub mod Tests
pub mod Examples
