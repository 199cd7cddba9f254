-- ===== src/StateDb.antt =====
-- python/S2AFL/runtime/state_db.py: the runtime state in sqlite, one module for each group of
-- methods. `Schema` holds the tables; `Reach` is the state as a whole.
pub mod Schema
pub mod Events
pub mod Seeds
pub mod Targets
pub mod Tasks
pub mod Metrics
pub mod Coverage
