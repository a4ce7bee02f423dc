-- ===== src/Event.antt =====
-- event.c: the event base with its queues, by part.
pub mod State
pub mod Queues
pub mod Delete
pub mod Active
pub mod Add
pub mod Timeouts
pub mod Invariant
pub mod QueueLaws
pub mod TimeoutLaws
pub mod Effects
pub mod DeleteLaws
pub mod ActiveLaws
pub mod AddLaws
pub mod Expiry
pub mod LaterLaws
pub mod NextLaws
pub mod Persist
pub mod Loop
mod Samples
mod Tests
