-- ===== src/Engine.antt =====
-- engine/: the interpreter's addresses, its state and log fold, and its handlers.
pub mod Path
pub mod Events
pub mod RunState
pub mod Fold
pub mod Walk
pub mod Gate
pub mod SignalStep
pub mod Map
pub mod Prune
pub mod RetryLoop
pub mod Try
pub mod Condition
pub mod Branch
pub mod Loop
pub mod Commit
pub mod Rerun
