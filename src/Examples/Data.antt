-- ===== src/Examples/Data.antt =====
-- Rows, records and results of a small run.
use s2afl.Prelude.{true, false, List, [], ◌∷◌, Text, codes}
use s2afl.Dict.{str}
use s2afl.StateDb.Schema.{Db, SeedRow, TaskRow, TargetRow, LineRow, init_db}
use s2afl.StateDb.Seeds.{SeedRecord}
use s2afl.StateDb.Tasks.{new_task}
use s2afl.StateDb.Coverage.{LineKey}
use s2afl.Scheduler.{SchedulerConfig, Services}
use s2afl.Scheduler.Results.{MessageDelta, CoverageReplayResult}
use s2afl.Scheduler.Batch.{Candidate}
use s2afl.Executor.Lines.{BodyRules}
use s2afl.Executor.Requests.{RequestMessage}
use s2afl.Executor.Prefix.{GeneratedSeedCandidate}

abbrev pub task_one : TaskRow
task_one =
    new_task "t1" "boundary-generate" "FTP" "lightftp" "s1" "b1" 10 (("batch_id", str "bnd-1") ∷ [])
      100

abbrev pub task_two : TaskRow
task_two =
    new_task "t2" "boundary-generate" "FTP" "lightftp" "s1" "b2" 20 (("batch_id", str "bnd-1") ∷ [])
      101

abbrev pub seed_one : SeedRow
seed_one = record {
  seed_id = "s1";
  queue_path = "/q/id:000000";
  origin = "aflnet";
  protocol = "FTP";
  subject = "lightftp";
  methods = "USER" ∷ [];
  message_count = 1;
  body_sha1 = "da39";
  size_bytes = 6;
  first_seen_at = 50;
  last_replayed_at = 0;
  metadata = ("source", str "aflnet") ∷ [];
}

abbrev pub target_one : TargetRow
target_one = record {
  target_id = "v1";
  kind = "vuln";
  implementation = "lightftp";
  protocol = "FTP";
  relative_path = "ftpserv.c";
  line = 42;
  function_name = "ftp_user";
  code = "strcpy(a, b)";
  field_names = [];
  commands = "USER" ∷ [];
  evidence_score = 3;
  info_rank = 0;
  first_activation_ts = 0;
  analyzed = 0;
  analysis_result = "";
  source_payload = [];
}

abbrev pub line_one : LineRow
line_one = record {
  line_key = "ftpserv.c:42";
  relative_path = "ftpserv.c";
  line = 42;
  first_seed_id = "s1";
  first_seen_at = 60;
  last_seed_id = "s1";
  last_seen_at = 60;
  hit_count = 1;
}

abbrev pub db_one : Db
db_one = record init_db {
  tasks = task_one ∷ task_two ∷ [];
  seeds = seed_one ∷ [];
  targets = target_one ∷ [];
  coverage_lines = line_one ∷ [];
}

abbrev pub found_again : SeedRecord
found_again = record {
  seed_id = "s1";
  queue_path = "/q/id:000007";
  origin = "llm";
  protocol = "FTP";
  subject = "lightftp";
  methods = "USER" ∷ [];
  message_count = 2;
  body_sha1 = "0000";
  size_bytes = 9;
  first_seen_at = 70;
  metadata = ("task_kind", str "vuln-generate") ∷ [];
}

abbrev pub line_keys : List LineKey
line_keys =
    record { line_key = "ftpserv.c:42"; relative_path = "ftpserv.c"; line_no = 42 }
    ∷ record { line_key = "ftpserv.c:50"; relative_path = "ftpserv.c"; line_no = 50 }
    ∷ []

abbrev pub config : SchedulerConfig
config = record {
  protocol = "FTP";
  subject = "lightftp";
  one_shot_per_target = true;
  max_guess_boundary_tasks = 5;
  max_boundary_attempts_per_target = 3;
  max_vuln_tasks = 1;
  max_vuln_generated_extra_tasks_per_target = 0;
}

-- Ids and times of a run that draws few of them.
abbrev pub services : Services
services = record {
  materialize_targets_by_id = λ ids. [];
  target_catalog_size = 4;
  uuid = λ n. "id";
  clock = λ n. 200;
  priority_value = λ rank activated payload. 7;
}

abbrev pub delta : MessageDelta
delta = record {
  step_index = 0;
  message_preview = "USER a";
  cumulative_lines = "ftpserv.c:42" ∷ [];
  cumulative_branches = [];
  hit_boundary_target_ids = [];
  hit_vuln_target_ids = "v1" ∷ [];
}

abbrev pub result : CoverageReplayResult
result = record {
  seed_id = "s1";
  measurement_lane = "aflnet";
  accepted = true;
  reason = "";
  replay_accepted = true;
  scheduler_accepted = true;
  message_deltas = delta ∷ [];
  hit_vuln_target_ids = "v1" ∷ [];
  flipped_boundary_target_ids = [];
  global_new_lines = 2;
  global_new_branches = 0;
}

abbrev pub candidate : Candidate
candidate = record {
  target_id = "b1";
  seed_id = "s1";
  info_rank = 0;
  activation_ts = 10;
  context_kind = "line-hit";
  boundary_lane = "strict";
  frontier_score = 2;
  evidence_score = 1;
  tried = false;
  touched = true;
}

abbrev pub smtp_rules : BodyRules
smtp_rules = record {
  body_methods = codes "DATA" ∷ [];
  end_markers = codes "." ∷ [];
  terminator = 13 ∷ 10 ∷ 46 ∷ 13 ∷ 10 ∷ [];
}

abbrev pub smtp_session : List Text
smtp_session = codes "DATA\r\n" ∷ codes "body\r\n" ∷ codes ".\r\n" ∷ codes "QUIT\r\n" ∷ []

abbrev pub request : RequestMessage
request = record {
  raw = codes "OPTIONS * RTSP/1.0\r\nCSeq: 1\r\n\r\n";
  start_line = codes "OPTIONS * RTSP/1.0";
  headers = (codes "CSeq", codes "1") ∷ [];
  body = [];
}

abbrev pub generated : GeneratedSeedCandidate
generated = record { seed_text = codes "USER a\r\nPASS b\r\n"; summary = []; mutated_fields = [] }
