-- ===== src/Event/Loop.antt =====
-- The loop of event.c, by part.
pub mod Program
pub mod Closures
pub mod Process
pub mod Run
pub mod Frames
pub mod Dequeue
pub mod Internal
pub mod InternalRun
pub mod Calm
pub mod Strict
pub mod Limits
pub mod Exits
mod Tests
