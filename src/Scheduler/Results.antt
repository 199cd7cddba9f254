-- ===== src/Scheduler/Results.antt =====
-- What a coverage replay reports to the scheduler: `MessageDelta` and `CoverageReplayResult` of
-- python/S2AFL/runtime/models.py, the fields that the scheduler reads.
use s2afl.Prelude.{ℕ, String, Bool, List}

pub record MessageDelta : Type 0 where
  pub step_index : ℕ
  pub message_preview : String
  pub cumulative_lines : List String
  pub cumulative_branches : List String
  pub hit_boundary_target_ids : List String
  pub hit_vuln_target_ids : List String

pub record CoverageReplayResult : Type 0 where
  pub seed_id : String
  pub measurement_lane : String
  pub accepted : Bool
  pub reason : String
  pub replay_accepted : Bool
  pub scheduler_accepted : Bool
  pub message_deltas : List MessageDelta
  pub hit_vuln_target_ids : List String
  pub flipped_boundary_target_ids : List String
  pub global_new_lines : ℕ
  pub global_new_branches : ℕ
