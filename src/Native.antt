-- ===== src/Native.antt =====
-- How the library reaches the native module: src/utils/isNativeModuleAvailable.ts,
-- assertNativeModuleAvailable.ts and errors.ts.
pub mod Provider
pub mod Probe
pub mod Laws
