-- ===== src/Signal.antt =====
-- signal/: the control directory of a run, through which signals reach it.
pub mod Paths
pub mod Broker
mod Examples
