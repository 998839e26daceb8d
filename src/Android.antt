-- ===== src/Android.antt =====
-- android/src/main/java/com/margelo/nitro/syncprovider: the queue's storage and dispatch on Android.
pub mod Rows
pub mod Storage
pub mod Attempt
pub mod Dispatch
pub mod Cycle
pub mod Tables
pub mod Claim
pub mod Sorting
pub mod Urgent
pub mod Wake
pub mod Timer
pub mod RoundTrip
pub mod Verdict
pub mod Fate
pub mod Refinement
pub mod Settled
pub mod Budget
pub mod Tells
pub mod Outcomes
pub mod Reports
pub mod Events
pub mod Insertion
pub mod Engine
pub mod Tests
