-- ===== src/Queue.antt =====
-- The publish/subscribe queue (Queues/): one shared array, many readers and writers.
pub mod Readers
pub mod State
pub mod Pacing
pub mod Release
pub mod Ops
pub mod Write
pub mod Inv
pub mod Writing
pub mod Reading
pub mod Joining
pub mod Leaving
pub mod Writers
pub mod Called
pub mod Life
pub mod Throttle
pub mod Query
pub mod Report
mod Tests
