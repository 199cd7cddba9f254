-- ===== src/StateDb/Schema.antt =====
-- The tables of `_init_db`. A column `…_json` holds what json.dumps was given, so that it is modelled
-- by the value; REAL columns (times, priorities) are numbers of a fixed unit.
use s2afl.Prelude.{ℕ, String, Option, List, []}
use s2afl.Dict.{Dict, Json}

pub record EventRow : Type 0 where
  pub event_id : String
  pub kind : String
  pub subject : String
  pub protocol : String
  pub seed_id : Option String
  pub payload : Dict Json
  pub created_at : ℕ

pub record TaskRow : Type 0 where
  pub task_id : String
  pub kind : String
  pub protocol : String
  pub subject : String
  pub seed_id : String
  pub target_id : String
  pub attempt : ℕ
  pub status : String
  pub leased_by : String
  pub priority : ℕ
  pub payload : Dict Json
  pub result : Dict Json
  pub created_at : ℕ
  pub updated_at : ℕ

pub record SeedRow : Type 0 where
  pub seed_id : String
  pub queue_path : String
  pub origin : String
  pub protocol : String
  pub subject : String
  pub methods : List String
  pub message_count : ℕ
  pub body_sha1 : String
  pub size_bytes : ℕ
  pub first_seen_at : ℕ
  pub last_replayed_at : ℕ
  pub metadata : Dict Json

pub record TargetRow : Type 0 where
  pub target_id : String
  pub kind : String
  pub implementation : String
  pub protocol : String
  pub relative_path : String
  pub line : ℕ
  pub function_name : String
  pub code : String
  pub field_names : List String
  pub commands : List String
  pub evidence_score : ℕ
  pub info_rank : ℕ
  pub first_activation_ts : ℕ
  pub analyzed : ℕ
  pub analysis_result : String
  pub source_payload : Dict Json

pub record LineRow : Type 0 where
  pub line_key : String
  pub relative_path : String
  pub line : ℕ
  pub first_seed_id : String
  pub first_seen_at : ℕ
  pub last_seed_id : String
  pub last_seen_at : ℕ
  pub hit_count : ℕ

pub record BranchRow : Type 0 where
  pub branch_key : String
  pub first_seed_id : String
  pub first_seen_at : ℕ
  pub last_seed_id : String
  pub last_seen_at : ℕ
  pub hit_count : ℕ

pub record MetricRow : Type 0 where
  pub metric_name : String
  pub metric_value : Json
  pub updated_at : ℕ

pub record ObservationRow : Type 0 where
  pub observation_id : String
  pub seed_id : String
  pub stage : String
  pub lane : String
  pub queue_path : String
  pub task_id : String
  pub target_id : String
  pub module_name : String
  pub payload : Dict Json
  pub created_at : ℕ

pub record Db : Type 0 where
  pub events : List EventRow
  pub tasks : List TaskRow
  pub seeds : List SeedRow
  pub targets : List TargetRow
  pub coverage_lines : List LineRow
  pub coverage_branches : List BranchRow
  pub metrics : List MetricRow
  pub seed_observations : List ObservationRow

-- CREATE TABLE IF NOT EXISTS on a new file.
abbrev pub init_db : Db
init_db = record {
  events = [];
  tasks = [];
  seeds = [];
  targets = [];
  coverage_lines = [];
  coverage_branches = [];
  metrics = [];
  seed_observations = [];
}
