-- ===== src/Backoff.antt =====
-- src/utils/retryBackoff.ts, the delay before the next retry, and the ports of it to Kotlin and Swift.
pub mod Exact
pub mod ExactKotlin
pub mod Range
pub mod RangeKotlin
pub mod Delay
pub mod Agreement
pub mod Kotlin
pub mod Laws
pub mod Spread
pub mod Swift
pub mod Truncated
pub mod Tests
