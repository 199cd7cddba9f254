-- ===== src/Examples/Replay.antt =====
-- The theorems on the knowledge base and the replayer, applied, and runs of their code.
use s2afl.Prelude.{
  true, false, Option, none, some, List, [], ◌∷◌, ◌≡◌, refl, suc, ◌-◌, min, length, str_eq, ◌==◌,
  Text, codes, pos, if◌then◌else◌, leb,
}
use s2afl.Dict.{null}
use s2afl.StateDb.Schema.{init_db}
use s2afl.StateDb.Metrics.{get_metric}
use s2afl.Table
use s2afl.Scheduler.{World, truthy, decimal}
use s2afl.Scheduler.Replay.{field_of}
use s2afl.Knowledge.Points.{Builtins, Point, index_program_points}
use s2afl.Knowledge.Targets.{Knowledge}
use s2afl.Knowledge.Targets.Once.{Call, by_id, by_coverage, run, IsFresh, run-IsFresh}
use s2afl.Knowledge.Coverage.{boundary_branch_state}
use s2afl.Replay.Witness.{Step, PrefixWitness, extract_success_prefix_witness}
use s2afl.Replay.Witness.Prefix.{IsWitness}
use s2afl.Replay.Witness.Traces.{Trace, extract_success_prefix_witness-Trace}
use s2afl.Replay.Health.{HealthConfig, setting, recent_of, is_degraded, record_replay_health}
use s2afl.Replay.Health.Window.{health_of, record_replay_health-window}
use s2afl.Examples.Data.{config, services, result}

abbrev builtins : Builtins
builtins = record {
  path_name = λ p. if str_eq p "src/a.c" then "a.c" else p;
  strip = λ s. s;
  int = λ s.
      if str_eq s "0"
      then some 0
      else if str_eq s "3"
      then some 3
      else if str_eq s "5"
      then some 5
      else none;
}

abbrev point : Point
point = record {
  is_boundary = true;
  relative_path = "src/a.c";
  line = 3;
  function = "parse";
  code = "n > 4";
  field_refs = [];
  match_level = "none";
  json = null;
}

abbrev knowledge : Knowledge
knowledge = record {
  implementation = "lightftp";
  protocol = "FTP";
  templates = [];
  facts_by_field = [];
  facts_by_function = [];
  static_program_points = point ∷ [];
  index = index_program_points builtins (point ∷ []);
  materialized = [];
}

abbrev calls : List Call
calls = by_coverage ("a.c:5" ∷ []) [] 3 4096 ∷ by_id ("boundary:src/a.c:3" ∷ []) ∷ []

run-IsFresh_example : IsFresh [] (run builtins calls knowledge)
run-IsFresh_example = run-IsFresh builtins (point ∷ []) calls knowledge refl

-- The first call makes the target and the second one skips it.
materialized_once : length (run builtins calls knowledge) ≡ 1
unfolding run decimal
materialized_once = refl

abbrev step : Step
step = record {
  step_index = 0;
  send_error = [];
  response_error = [];
  capture_returncode = pos 0;
  has_capture_error = false;
  response_preview = codes "220 ready";
  method = [];
}

abbrev greeting : List Text
greeting = codes "USER a\r\n" ∷ []

abbrev greeted : PrefixWitness
greeted = extract_success_prefix_witness (some step ∷ none ∷ []) greeting

extract_success_prefix_witness-Trace_example :
    Trace greeting 0
      (some step ∷ none ∷ [])
      greeted.success_prefix_messages
      greeted.first_failure_status_step
    × IsWitness greeting 2 greeted
extract_success_prefix_witness-Trace_example =
    extract_success_prefix_witness-Trace (some step ∷ none ∷ []) greeting

abbrev health : HealthConfig
health = record {
  enabled = true;
  window_size = 1;
  min_samples = 1;
  rate = λ n m. null;
  reaches_threshold = λ n m. leb m n;
}

abbrev before : World
before = record { db = init_db; draws = 0 }

world_of : Option World → World
world_of none = before
world_of (some w) = w

abbrev after : World
after = world_of (record_replay_health health config services result before)

record_replay_health-window_example :
    (length (recent_of (health_of after))
      ≡ suc (
          if setting 1 64 == 1
          then length (recent_of (health_of before))
          else min (setting 1 64 - 1) (length (recent_of (health_of before)))))
    × (truthy (field_of "degraded" (health_of after))
        ≡ is_degraded health (recent_of (health_of after)))
unfolding record_replay_health world_of get_metric Table.find
record_replay_health-window_example =
    record_replay_health-window health config services result before after refl refl

-- The covered side is joined to a prefix under which only another side was seen.
boundary_branch_state_run :
    boundary_branch_state builtins "src/a.c" 3 ("src/a.c:3:0" ∷ "a.c:3:5" ∷ [])
    ≡ some (record {
      covered_side = 0;
      missing_side = 1;
      covered_branch_key = "a.c:3:0";
      missing_branch_key = "a.c:3:1";
    })
unfolding boundary_branch_state decimal
boundary_branch_state_run = refl
