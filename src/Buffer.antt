-- ===== src/Buffer.antt =====
-- Buffers of bytes (buffer.c, evbuffer-internal.h): lists of chains of memory, and the operations
-- that put bytes at their ends, take bytes out and move chains between them.
pub mod Chain
pub mod State
pub mod Add
pub mod Remove
pub mod Move
pub mod Pullup
pub mod ChainLaws
pub mod Invariant
pub mod AddLaws
pub mod AddSuccess
pub mod PrependLaws
pub mod RemoveLaws
pub mod MoveLaws
pub mod PullChains
pub mod PullupLaws
pub mod Split
pub mod Search
pub mod SearchLaws
pub mod PlaceLaws
pub mod LineLaws
pub mod ReadLines
pub mod SplitChains
pub mod SplitLaws
mod LineTests
mod Tests
