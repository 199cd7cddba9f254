-- ===== src/Scheduler/Vuln.antt =====
-- The vuln tasks of python/S2AFL/runtime/scheduler.py: `_schedule_vuln_tasks` with its limit, its gates and
-- the targets that it materializes.
use s2afl.Prelude.{
  ℕ, suc, ◌+◌, ◌-◌, String, Bool, true, false, not, ◌&&◌, ◌||◌, Option, none, some, List, [], ◌∷◌,
  ltb, leb, ◌==◌, str_eq, if◌then◌else◌, length, ◌>>=◌,
}
use s2afl.Dict
use s2afl.Dict.{Dict, Json, Fields, null, bool, num, str, arr, obj, nil, cons, end, field}
use s2afl.StateDb.Schema.{Db, TargetRow}
use s2afl.StateDb.Seeds.{get_seed_row}
use s2afl.StateDb.Targets.{TargetRecord, upsert_targets, mark_target_analyzed, get_target_row}
use s2afl.StateDb.Tasks.{
  has_active_task_for_target, count_tasks_for_target, count_tasks_for_target_module,
  has_task_for_target_seed,
}
use mathlib.Core.Option
use s2afl.StateDb.Metrics.{update_metric, get_metric}
use Prim.Native.String.{◌++◌}
use s2afl.Scheduler.Results.{MessageDelta, CoverageReplayResult}
use s2afl.Scheduler.{
  SchedulerConfig, Services, World, fields, decimal, at_least_one, int_field, value_or,
  record_event_now, create_one_shot_task,
}

-- _seed_module, before `str`, which leaves texts as they are.
unfoldable pub seed_module : String → Db → Json
unfolding value_or
seed_module seed_id db = elim (get_seed_row seed_id db) [
  | none ↦ str ""
  | some r ↦
      value_or (Dict.get "task_kind" r.metadata) (value_or (Dict.get "source" r.metadata) (str ""))
]

-- The reply of `_vuln_limit_override`: two entries of the dict, and the others.
pub record Override : Type 0 where
  pub allowed : Bool
  pub reason : String
  pub details : Dict Json

unfoldable pub refused : String → Override
refused reason = record { allowed = false; reason = reason; details = [] }

unfoldable pub generated_override : ℕ → ℕ → ℕ → ℕ → String → Override
generated_override task_count max_vuln_tasks extra_budget module_count name =
    let extra_used = task_count - max_vuln_tasks in
    let allowed = module_count == 0 && ltb extra_used extra_budget in
    record {
      allowed = allowed;
      reason = if allowed then "generated-extra-budget" else "generated-extra-budget-exhausted";
      details =
          ("module", str name)
          ∷ ("module_task_count", num module_count)
          ∷ ("extra_budget", num extra_budget)
          ∷ ("extra_used", num extra_used)
          ∷ [];
    }

unfoldable pub generated_module : Json → Option String
generated_module (str t) =
    if str_eq t "boundary-generate" || str_eq t "vuln-generate" then some t else none
generated_module _ = none

-- _vuln_limit_override
unfoldable pub vuln_limit_override :
    SchedulerConfig → CoverageReplayResult → String → ℕ → ℕ → Db → Override
unfolding seed_module refused generated_override generated_module
vuln_limit_override c result target_id task_count max_vuln_tasks db =
    let extra_budget = c.max_vuln_generated_extra_tasks_per_target in
    let name = seed_module result.seed_id db in
    if ltb task_count max_vuln_tasks
    then record { allowed = true; reason = "under-limit"; details = [] }
    else if extra_budget == 0
    then refused "no-extra-budget"
    else if not (str_eq result.measurement_lane "generated-handoff")
    then refused "not-generated-handoff"
    else if result.global_new_lines == 0
        && result.global_new_branches == 0
        && length result.flipped_boundary_target_ids == 0
    then refused "no-generated-new-coverage"
    else elim (generated_module name) [
      | none ↦ record {
        allowed = false;
        reason = "not-generated-module";
        details = ("module", name) ∷ [];
      }
      | some t ↦
          generated_override task_count max_vuln_tasks extra_budget
            (count_tasks_for_target_module target_id "vuln-generate" t db) t
    ]

module _ (c : SchedulerConfig) (s : Services) where
  -- _update_target_count_metric
  unfoldable pub update_target_count_metric : ℕ → World → World
  unfolding int_field
  update_target_count_metric delta w =
      let current = get_metric "target_count" (obj end) w.db in
      let known = int_field "catalog_count" current in
      let catalog_count = if known == 0 then s.target_catalog_size else known in
      let value = obj (
        field "count" (num (int_field "count" current + delta))
          (field "catalog_count" (num catalog_count) (field "materialization" (str "lazy") end))) in
      record { db = update_metric "target_count" value (s.clock w.draws) w.db; draws = suc w.draws }

  unfoldable pub materialize : List TargetRecord → World → World
  unfolding update_target_count_metric
  materialize [] w = w
  materialize (t ∷ records) w =
      update_target_count_metric (length (t ∷ records))
        (record w { db = upsert_targets (t ∷ records) w.db })

  -- _ensure_materialized_target: the world, and the row in it.
  unfoldable pub ensure_materialized_target : String → World → Option TargetRow × World
  unfolding materialize
  ensure_materialized_target target_id w = elim (get_target_row target_id w.db) [
    | some r ↦ (some r, w)
    | none ↦
        let w' = materialize (s.materialize_targets_by_id (target_id ∷ [])) w in
        (get_target_row target_id w'.db, w')
  ]

  -- _record_vuln_gate
  unfoldable pub record_vuln_gate :
      CoverageReplayResult → String → MessageDelta → String → Dict Json → World → Option World
  unfolding record_event_now
  record_vuln_gate result target_id delta reason extra w =
      record_event_now c s "vuln_scheduler_gate"
        (("target_id", str target_id)
          ∷ ("reason", str reason)
          ∷ ("measurement_lane", str result.measurement_lane)
          ∷ ("accepted", bool result.accepted)
          ∷ ("step_index", num delta.step_index)
          ∷ ("message_preview", str delta.message_preview)
          ∷ extra)
        (some result.seed_id) w

  -- The payload of a vuln task.
  unfoldable pub vuln_payload : MessageDelta → TargetRow → String → ℕ → ℕ → Override → Dict Json
  unfolding fields
  vuln_payload delta r target_id task_count max_vuln_tasks override =
      let override_fields =
        ("allowed", bool override.allowed) ∷ ("reason", str override.reason) ∷ override.details in
      ("reason", str "covered-vulnerability-line")
      ∷ ("step_index", num delta.step_index)
      ∷ ("message_preview", str delta.message_preview)
      ∷ ("target_id", str target_id)
      ∷ ("evidence_score", num r.evidence_score)
      ∷ ("vuln_task_count_before", num task_count)
      ∷ ("max_vuln_tasks", num max_vuln_tasks)
      ∷ ("vuln_limit_override", obj (fields override_fields))
      ∷ []

  -- The branch of `_schedule_vuln_tasks` for a target that has used its budget.
  unfoldable pub over_limit :
      CoverageReplayResult
      → MessageDelta
      → String
      → TargetRow
      → ℕ
      → ℕ
      → Override
      → World
      → Option World
  unfolding record_vuln_gate decimal
  over_limit result delta target_id r task_count max_vuln_tasks override w = do
    v ←
        record_vuln_gate result target_id delta "target-task-limit"
          (("task_count", num task_count)
            ∷ ("max_vuln_tasks", num max_vuln_tasks)
            ∷ ("override_reason", str override.reason)
            ∷ override.details)
          w
    some (
        if r.analyzed == 0
        then record v {
          db = mark_target_analyzed target_id ("vuln-task-limit:" ++ decimal max_vuln_tasks) v.db;
        }
        else v)

  -- The loop of `_schedule_vuln_tasks` for one target of one delta, from the count of its tasks on.
  unfoldable pub schedule_vuln_row :
      CoverageReplayResult → MessageDelta → String → TargetRow → World → Option World
  unfolding record_vuln_gate vuln_limit_override create_one_shot_task over_limit vuln_payload
  schedule_vuln_row result delta target_id r w =
      let max_vuln_tasks = at_least_one 1 c.max_vuln_tasks in
      let kind : String = "vuln-generate" in
      let task_count = count_tasks_for_target target_id (some kind) w.db in
      let override = vuln_limit_override c result target_id task_count max_vuln_tasks w.db in
      let gated = ("task_count", num task_count) ∷ [] in
      if leb max_vuln_tasks task_count && not override.allowed
      then over_limit result delta target_id r task_count max_vuln_tasks override w
      else if has_task_for_target_seed target_id result.seed_id (some kind) w.db
      then record_vuln_gate result target_id delta "duplicate-target-seed" gated w
      else if has_active_task_for_target target_id (some kind) w.db
      then record_vuln_gate result target_id delta "active-task-exists" gated w
      else Option.map (λ (t : Bool × World). t.1)
          (create_one_shot_task c s kind r result.seed_id
            (vuln_payload delta r target_id task_count max_vuln_tasks override) w)

  -- The loop of `_schedule_vuln_tasks` for one target of one delta.
  unfoldable pub schedule_vuln_target :
      CoverageReplayResult → MessageDelta → String → World → Option World
  unfolding ensure_materialized_target record_vuln_gate schedule_vuln_row
  schedule_vuln_target result delta target_id w =
      let found = ensure_materialized_target target_id w in
      elim found.0 [
        | none ↦ record_vuln_gate result target_id delta "missing-target" [] found.1
        | some r ↦ schedule_vuln_row result delta target_id r found.1
      ]

  unfoldable pub schedule_vuln_targets :
      CoverageReplayResult → MessageDelta → List String → World → Option World
  unfolding schedule_vuln_target
  schedule_vuln_targets result delta [] w = some w
  schedule_vuln_targets result delta (target_id ∷ ids) w = do
    v ← schedule_vuln_target result delta target_id w
    schedule_vuln_targets result delta ids v

  unfoldable pub schedule_vuln_deltas :
      CoverageReplayResult → List MessageDelta → World → Option World
  unfolding schedule_vuln_targets
  schedule_vuln_deltas result [] w = some w
  schedule_vuln_deltas result (delta ∷ deltas) w = do
    v ← schedule_vuln_targets result delta delta.hit_vuln_target_ids w
    schedule_vuln_deltas result deltas v

  -- _schedule_vuln_tasks
  unfoldable pub schedule_vuln_tasks : CoverageReplayResult → World → Option World
  unfolding schedule_vuln_deltas
  schedule_vuln_tasks result w = schedule_vuln_deltas result result.message_deltas w
