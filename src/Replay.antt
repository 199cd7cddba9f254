-- ===== src/Replay.antt =====
-- python/S2AFL/runtime/coverage_replay.py: what the replayer makes of a trace and of the coverage that
-- it found. The processes that replay and measure are not modelled.
pub mod Witness
pub mod Outcome
pub mod Health
