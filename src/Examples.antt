-- ===== src/Examples.antt =====
-- Concrete states and messages, on which the theorems are applied and the operations run.
pub mod Data
mod State
mod Runtime
mod Tasks
mod Worker
mod Replay
