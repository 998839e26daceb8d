-- ===== src/Drain.antt =====
-- The bounded drain loop: src/utils/drainController.ts.
pub mod Frame
pub mod Race
pub mod Loop
pub mod Ends
pub mod Bounded
pub mod Passes
pub mod Results
pub mod Prompt
pub mod Liveness
pub mod Sound
pub mod Log
pub mod Protocol
pub mod Order
pub mod Discipline
pub mod Cooldown
pub mod Tests
