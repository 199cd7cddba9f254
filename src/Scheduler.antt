-- ===== src/Scheduler.antt =====
-- python/S2AFL/runtime/scheduler.py: the tasks that the scheduler creates. `none` is the IntegrityError
-- of an id that is taken. Logging is not modelled.
pub mod Results
pub mod Budget
pub mod Batch
pub mod Context
pub mod Life
pub mod Replay
pub mod Vuln
use s2afl.Prelude.{
  ℕ, zero, suc, ◌+◌, ◌-◌, ◌/◌, ◌%◌, String, Bool, true, false, not, ◌&&◌, ◌||◌, Option, none, some,
  List, [], ◌∷◌, ltb, leb, ◌==◌, str_eq, if◌then◌else◌, max, length, codes, starts_with, ◌>>=◌,
}
use s2afl.Dict
use s2afl.Dict.{Dict, Json, Fields, null, bool, num, str, arr, obj, nil, cons, end, field}
use s2afl.StateDb.Schema.{Db, TargetRow, TaskRow}
use s2afl.StateDb.Events.{record_event}
use s2afl.StateDb.Seeds.{get_seed_row}
use s2afl.StateDb.Targets.{
  TargetRecord, upsert_targets, activate_target, mark_target_analyzed, get_target_row,
  set_target_analysis_result,
}
use s2afl.StateDb.Tasks.{
  create_task, has_active_task_for_target, count_tasks_for_target, count_tasks_for_target_module,
  has_task_for_target_seed,
}
use mathlib.Core.Option
use s2afl.StateDb.Metrics.{update_metric, get_metric}
use Prim.Native.String.{◌++◌}
use Results.{MessageDelta, CoverageReplayResult}

-- The fields of `RuntimeConfig` that are read here.
pub record SchedulerConfig : Type 0 where
  pub protocol : String
  pub subject : String
  pub one_shot_per_target : Bool
  pub max_guess_boundary_tasks : ℕ
  pub max_boundary_attempts_per_target : ℕ
  pub max_vuln_tasks : ℕ
  pub max_vuln_generated_extra_tasks_per_target : ℕ

abbrev digit : ℕ → String
digit n =
    if n == 0
    then "0"
    else if n == 1
    then "1"
    else if n == 2
    then "2"
    else if n == 3
    then "3"
    else if n == 4
    then "4"
    else if n == 5
    then "5"
    else if n == 6
    then "6"
    else if n == 7
    then "7"
    else if n == 8
    then "8"
    else "9"

decimal_loop : ℕ → ℕ → String
decimal_loop zero n = ""
decimal_loop (suc fuel) n =
    let high = decimal_loop fuel (n / 10) in if ltb n 10 then digit n else high ++ digit (n % 10)

-- An int in an f-string.
unfoldable pub decimal : ℕ → String
unfolding decimal_loop
decimal n = decimal_loop (suc n) n

-- What the scheduler calls of other classes: `materialize_targets_by_id` and `target_catalog_size` of
-- RuntimeKnowledge, uuid4, time.time() and the float arithmetic of `_priority_value`. Each draw of an id and each look at the
-- clock has a number.
pub record Services : Type 0 where
  pub materialize_targets_by_id : List String → List TargetRecord
  pub target_catalog_size : ℕ
  pub uuid : ℕ → String
  pub clock : ℕ → ℕ
  pub priority_value : ℕ → ℕ → Dict Json → ℕ

pub record World : Type 0 where
  pub db : Db
  pub draws : ℕ

unfoldable pub fields : Dict Json → Fields
fields [] = end
fields ((k, v) ∷ d) = field k v (fields d)

-- max(1, int(configured or default))
abbrev pub at_least_one : ℕ → ℕ → ℕ
at_least_one default configured = max 1 (if configured == 0 then default else configured)

-- _boundary_attempt_limit
abbrev pub boundary_attempt_limit : SchedulerConfig → ℕ
boundary_attempt_limit c = at_least_one 3 c.max_boundary_attempts_per_target

-- _boundary_batch_size
abbrev pub boundary_batch_size : SchedulerConfig → ℕ
boundary_batch_size c = at_least_one 5 c.max_guess_boundary_tasks

-- _is_confirmed_flip_target
abbrev pub is_confirmed_flip_target : TargetRow → Bool
is_confirmed_flip_target r = starts_with (codes r.analysis_result) (codes "branch-flipped:")

-- int(d.get(key, 0) or 0) of a value that is an object with numbers.
int_in : String → Fields → ℕ
int_in key end = 0
int_in key (field k (num n) fs) = if str_eq k key then n else int_in key fs
int_in key (field k _ fs) = if str_eq k key then 0 else int_in key fs

int_field : String → Json → ℕ
unfolding int_in
int_field key (obj fs) = int_in key fs
int_field key _ = 0

-- What Python takes for false.
unfoldable pub truthy : Json → Bool
truthy null = false
truthy (bool b) = b
truthy (num n) = not (n == 0)
truthy (str t) = not (str_eq t "")
truthy (arr nil) = false
truthy (arr (cons _ _)) = true
truthy (obj end) = false
truthy (obj (field _ _ _)) = true

value_or : Option Json → Json → Json
unfolding truthy
value_or none d = d
value_or (some j) d = if truthy j then j else d

module _ (c : SchedulerConfig) (s : Services) where
  unfoldable pub record_event_now : String → Dict Json → Option String → World → Option World
  record_event_now kind payload seed_id w =
      Option.map (λ db. record { db = db; draws = suc w.draws })
        (record_event (s.uuid w.draws) kind c.subject c.protocol payload seed_id (s.clock w.draws)
          w.db)

  -- The tests of `_create_one_shot_task` under which it returns False.
  unfoldable pub refuses_task : String → TargetRow → Db → Bool
  refuses_task kind r db =
      not (str_eq kind "vuln-generate") && not (r.analyzed == 0)
      || not (str_eq kind "vuln-generate") && has_active_task_for_target r.target_id (some kind) db
      || str_eq kind "boundary-generate"
        && (leb (boundary_attempt_limit c) (count_tasks_for_target r.target_id (some kind) db)
            && not (is_confirmed_flip_target r))

  -- What `_create_one_shot_task` does to the targets: the activation and, once per target, the mark.
  mark_queued : String → TargetRow → ℕ → Db → Db
  mark_queued kind r now db =
      let one_shot =
        c.one_shot_per_target
        && not (str_eq kind "boundary-generate" || str_eq kind "vuln-generate") in
      if one_shot then mark_target_analyzed r.target_id "queued" db else db

  -- The part of `_create_one_shot_task` behind the tests.
  pub queue_task : String → TargetRow → String → Dict Json → World → Option World
  unfolding record_event_now mark_queued fields
  queue_task kind r seed_id payload w =
      let now = s.clock w.draws in
      let activated = if r.first_activation_ts == 0 then now else r.first_activation_ts in
      let priority = s.priority_value r.info_rank activated payload in
      do
        db ←
            create_task (s.uuid w.draws) kind c.protocol c.subject seed_id r.target_id priority
              payload (s.clock (suc w.draws)) (activate_target r.target_id now w.db)
        record_event_now "scheduler_decision"
            (("task_kind", str kind)
              ∷ ("target_id", str r.target_id)
              ∷ ("priority", num priority)
              ∷ ("payload", obj (fields payload))
              ∷ [])
            (some seed_id) (record { db = mark_queued kind r now db; draws = suc (suc w.draws) })

  -- _create_one_shot_task
  unfoldable pub create_one_shot_task :
      String → TargetRow → String → Dict Json → World → Option (Bool × World)
  unfolding refuses_task queue_task
  create_one_shot_task kind r seed_id payload w =
      if refuses_task kind r w.db
      then some (false, w)
      else Option.map (λ (v : World). (true, v)) (queue_task kind r seed_id payload w)
