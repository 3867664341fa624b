-- ===== src/State.antt =====
-- state/: the append-only log of framed records, and its recovery.
pub mod Event
pub mod Frame
pub mod Log
pub mod Blobs
