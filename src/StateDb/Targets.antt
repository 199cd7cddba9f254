-- ===== src/StateDb/Targets.antt =====
-- The target methods.
pub mod Analysis
use s2afl.Prelude.{
  ℕ, String, Bool, true, Option, List, [], ◌∷◌, ltb, ◌==◌, ◌&&◌, ◌||◌, str_eq, filter,
  if◌then◌else◌,
}
use s2afl.Dict.{Dict, Json}
use s2afl.StateDb.Schema.{Db, TargetRow}
use s2afl.Table

-- `TargetRecord` of models.py.
pub record TargetRecord : Type 0 where
  pub target_id : String
  pub kind : String
  pub implementation : String
  pub protocol : String
  pub relative_path : String
  pub line : ℕ
  pub function : String
  pub code : String
  pub field_names : List String
  pub commands : List String
  pub evidence_score : ℕ
  pub info_rank : ℕ
  pub first_activation_ts : ℕ
  pub analyzed : Bool
  pub analysis_result : String
  pub source_payload : Dict Json

abbrev pub target_key : TargetRow → String
target_key r = r.target_id

target_row : TargetRecord → TargetRow
target_row t = record {
  target_id = t.target_id;
  kind = t.kind;
  implementation = t.implementation;
  protocol = t.protocol;
  relative_path = t.relative_path;
  line = t.line;
  function_name = t.function;
  code = t.code;
  field_names = t.field_names;
  commands = t.commands;
  evidence_score = t.evidence_score;
  info_rank = t.info_rank;
  first_activation_ts = t.first_activation_ts;
  analyzed = if t.analyzed then 1 else 0;
  analysis_result = t.analysis_result;
  source_payload = t.source_payload;
}

-- ON CONFLICT(target_id) DO UPDATE SET …
on_conflict : TargetRow → TargetRow → TargetRow
on_conflict old excluded = record old {
  field_names = excluded.field_names;
  commands = excluded.commands;
  evidence_score = excluded.evidence_score;
  info_rank = excluded.info_rank;
  source_payload = excluded.source_payload;
}

unfoldable pub upsert_target : TargetRecord → Db → Db
unfolding target_row on_conflict
upsert_target t db = record db {
  targets = Table.upsert target_key on_conflict (target_row t) db.targets;
}

-- executemany: one upsert for each target, in one transaction.
unfoldable pub upsert_targets : List TargetRecord → Db → Db
unfolding upsert_target
upsert_targets [] db = db
upsert_targets (t ∷ targets) db = upsert_targets targets (upsert_target t db)

unfoldable pub activate_target : String → ℕ → Db → Db
activate_target target_id ts db = record db {
  targets =
      Table.update target_key target_id
        (λ r. record r {
          first_activation_ts = if r.first_activation_ts == 0 then ts else r.first_activation_ts;
        })
        db.targets;
}

unfoldable pub mark_target_analyzed : String → String → Db → Db
mark_target_analyzed target_id result db = record db {
  targets =
      Table.update target_key target_id (λ r. record r { analyzed = 1; analysis_result = result })
        db.targets;
}

unfoldable pub set_target_analysis_result : String → String → Db → Db
set_target_analysis_result target_id result db = record db {
  targets =
      Table.update target_key target_id (λ r. record r { analysis_result = result }) db.targets;
}

unfoldable pub get_target_row : String → Db → Option TargetRow
get_target_row target_id db = Table.find target_key target_id db.targets

-- ORDER BY info_rank, first_activation_ts, line
abbrev pub ranks_before : TargetRow → TargetRow → Bool
ranks_before a b =
    ltb a.info_rank b.info_rank
    || (a.info_rank == b.info_rank)
      && (ltb a.first_activation_ts b.first_activation_ts
          || (a.first_activation_ts == b.first_activation_ts) && ltb a.line b.line)

abbrev pub is_candidate : String → TargetRow → Bool
is_candidate kind r = str_eq r.kind kind && r.analyzed == 0

unfoldable pub list_candidate_targets : String → Db → List TargetRow
list_candidate_targets kind db = Table.order_by ranks_before (filter (is_candidate kind) db.targets)
