-- ===== src/Examples.antt =====
-- Concrete runs of the log, the store and the retry policy at small inputs.
pub mod Journal
mod Retries
