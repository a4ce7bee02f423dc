-- ===== src/Evmap.antt =====
-- evmap.c: which events wait for each file descriptor and signal, and what the backend is told.
pub mod Slots
pub mod Io
pub mod Signal
pub mod SlotLaws
pub mod IoLaws
mod Tests
