-- ===== src/Examples/Tasks.antt =====
-- The theorems on the scheduler, applied, and a run of its code.
use s2afl.Prelude.{
  ◌⊎◌, false, eq_iff, ℕ, zero, suc, ◌≤◌, String, Bool, true, Option, none, some, List, [], ◌∷◌,
  ◌++◌, ◌≡◌, refl, arith, In, All, length, length-take, All-of_In, ◌∙◌, take, inl, inr, starts_with,
}
use s2afl.StateDb.Schema.{init_db, TaskRow}
use s2afl.Table
use s2afl.StateDb.Events.{record_event}
use s2afl.StateDb.Targets.{activate_target, get_target_row}
use s2afl.StateDb.Tasks.{
  create_task, has_task_for_target_seed, count_tasks_for_target, has_active_task_for_target,
}
use s2afl.Scheduler.{World, create_one_shot_task}
use s2afl.Scheduler.Vuln.{schedule_vuln_tasks}
use s2afl.Scheduler.Budget.{HasBudget, IsSingle, active_for, create_one_shot_task-HasBudget, Queued}
use s2afl.Scheduler.Budget.Returns.{Permitted, create_one_shot_task-returns}
use s2afl.Scheduler.Budget.Vuln.{KeepsBudget, schedule_vuln_tasks-KeepsBudget}
use s2afl.Scheduler.Context.{
  Wanted, find_seed_context_for_boundary, find_seed_context_for_boundary_lem, ranked, newest_first,
  no_context,
}
use s2afl.Scheduler.Batch.{Candidate, select_boundary_batch}
use s2afl.Scheduler.Batch.Selection.{IsSample, select_boundary_batch_lem}
use mathlib.Core.Option
use s2afl.Scheduler.Results.{CoverageReplayResult}
use s2afl.Scheduler.Replay.{consume_coverage_result, note_flips}
use s2afl.Scheduler.Replay.Keeps.{MaySchedule, consume_coverage_result-KeepsBudget}
use s2afl.Scheduler.Replay.Flips.{flipped_by, note_flips-rows}
use s2afl.Scheduler.Life.{
  refresh_boundary_batch_state, refresh_boundary_batch_state_lem, stored_active,
}
use s2afl.StateDb.Metrics.{get_metric, update_metric}
use s2afl.StateDb.Tasks.{task_batch_status_counts}
use s2afl.Dict
use s2afl.Dict.{Dict, Json, Fields, end, field, bool, str, obj, null, num}
use s2afl.Examples.Data.{
  task_one, task_two, db_one, target_one, config, services, result, candidate,
}

-- The world behind a call that returns.
abbrev world_of : Option World → World
world_of none = record { db = init_db; draws = 0 }
world_of (some w) = w

abbrev created_world : Option (Bool × World) → World
created_world none = record { db = init_db; draws = 0 }
created_world (some t) = t.1

abbrev start : World
start = record { db = record db_one { tasks = [] }; draws = 0 }

abbrev behind_create : World
behind_create =
    created_world
      (create_one_shot_task config services "boundary-generate" target_one "s1" [] start)

In-take : (n : ℕ) (pool : List Candidate) (a : Candidate) → In a (take n pool) → In a pool
In-take zero pool a m = absurd m
In-take (suc n) [] a m = absurd m
In-take (suc n) (x ∷ pool) a (inl e) = inl e
In-take (suc n) (x ∷ pool) a (inr m) = inr (In-take n pool a m)

no_active : (t kind : String) → Table.count (active_for t kind) start.db.tasks ≤ 1
unfolding Table.count
no_active t kind = omega arith

create_one_shot_task-HasBudget_example :
    HasBudget "boundary-generate" 3 behind_create.db × IsSingle "boundary-generate" behind_create.db
unfolding create_one_shot_task has_active_task_for_target Table.exists count_tasks_for_target
    Table.count create_task Table.insert activate_target record_event starts_with
create_one_shot_task-HasBudget_example =
    create_one_shot_task-HasBudget config services "boundary-generate" target_one "s1" [] start
      behind_create true refl refl (λ t. omega arith) (λ t. no_active t "boundary-generate")

abbrev behind_vuln : World
behind_vuln = world_of (schedule_vuln_tasks config services result start)

schedule_vuln_tasks-KeepsBudget_example : KeepsBudget config behind_vuln.db
unfolding schedule_vuln_tasks has_active_task_for_target has_task_for_target_seed Table.exists
    count_tasks_for_target Table.count create_task Table.insert activate_target record_event
    get_target_row Table.find
schedule_vuln_tasks-KeepsBudget_example =
    schedule_vuln_tasks-KeepsBudget config services result start behind_vuln refl
      ((λ t. omega arith), (λ t. no_active t "vuln-generate"))

abbrev wanted : Wanted
wanted = record {
  target_id = "b1";
  covered_branch_key = none;
  prefixes = "other.c:7:" ∷ [];
  line_keys = "other.c:7" ∷ [];
}

find_seed_context_for_boundary_lem_example :
    find_seed_context_for_boundary wanted (result ∷ [])
    ≡ ranked wanted
        (newest_first (result ∷ []))
        (no_context "branch-prefix")
        (no_context "recent-fallback")
find_seed_context_for_boundary_lem_example = find_seed_context_for_boundary_lem wanted (result ∷ [])

-- Samples from the front.
take-IsSample : IsSample (λ pool n. take n pool)
take-IsSample = record {
  size = λ pool n h. length-take n pool ∙ omega (arith, h);
  inside = λ pool n h. All-of_In (λ x. In x pool) (take n pool) (λ a m. In-take n pool a m);
}

select_boundary_batch_lem_example :
    (1 ≤ length (select_boundary_batch (λ pool n. take n pool) (candidate ∷ []) 5))
    × (length (select_boundary_batch (λ pool n. take n pool) (candidate ∷ []) 5) ≤ 5)
    × All
        (λ x.
          In x (candidate ∷ [])
          × ((y : Candidate) → In y (candidate ∷ []) → x.tried ≡ true → y.tried ≡ true))
        (select_boundary_batch (λ pool n. take n pool) (candidate ∷ []) 5)
select_boundary_batch_lem_example =
    select_boundary_batch_lem (λ pool n. take n pool) (candidate ∷ []) 5 take-IsSample (omega arith)
      (omega arith)

-- With no better context the loop ends with the oldest message.
recent_fallback_run :
    (find_seed_context_for_boundary wanted
      (record result { seed_id = "oldest" } ∷ record result { seed_id = "newest" } ∷ [])).seed_id
    ≡ some "oldest"
unfolding find_seed_context_for_boundary
recent_fallback_run = refl

abbrev batch_state : Fields
batch_state = field "active" (bool true) (field "batch_id" (str "bnd-1") end)

-- Both tasks of the batch have ended.
abbrev batch_world : World
batch_world = record {
  db = record db_one {
    tasks = record task_one { status = "completed" } ∷ record task_two { status = "failed" } ∷ [];
    metrics =
        record {
          metric_name = "active_boundary_batch";
          metric_value = obj batch_state;
          updated_at = 1;
        }
        ∷ [];
  };
  draws = 0;
}

abbrev refreshed : Option (Dict Json × World) → Dict Json × World
refreshed none = ([], batch_world)
refreshed (some t) = t

abbrev batch_after : Dict Json × World
batch_after = refreshed (refresh_boundary_batch_state config services 300 batch_world)

refresh_boundary_batch_state_lem_example :
    (Dict.get "active" batch_after.0 ≡ some (bool false))
    × (stored_active batch_after.1 ≡ some (bool false))
unfolding refresh_boundary_batch_state get_metric Table.find record_event Table.insert
    task_batch_status_counts Dict.get Dict.put update_metric Table.count
refresh_boundary_batch_state_lem_example =
    refresh_boundary_batch_state_lem config services 300 batch_world batch_after.1 "bnd-1"
      batch_after.0 (λ e. cc ((eq_iff "bnd-1" "").1 e)) refl refl refl

abbrev behind_result : World
behind_result = world_of (consume_coverage_result config services true true result start)

consume_coverage_result-KeepsBudget_example :
    ((behind_result.db.tasks ≡ start.db.tasks)
      ⊎ MaySchedule config services true true result start.db)
    × KeepsBudget config behind_result.db
unfolding consume_coverage_result schedule_vuln_tasks has_active_task_for_target
    has_task_for_target_seed Table.exists count_tasks_for_target Table.count create_task
    Table.insert activate_target record_event get_target_row Table.find get_metric
consume_coverage_result-KeepsBudget_example =
    consume_coverage_result-KeepsBudget config services true true result start behind_result refl
      ((λ t. omega arith), (λ t. no_active t "vuln-generate"))

abbrev flips : List String
flips = "v1" ∷ []

abbrev flipping : CoverageReplayResult
flipping = record result { flipped_boundary_target_ids = flips }

abbrev behind_flips : World
behind_flips = note_flips config services flipping start

note_flips-rows_example :
    ((In {A = String} "v1" flips
        × (get_target_row "v1" behind_flips.db
            ≡ Option.map (flipped_by "s1") (get_target_row "v1" start.db)))
      ⊎ ((In {A = String} "v1" flips → ⊥)
          × (get_target_row "v1" behind_flips.db ≡ get_target_row "v1" start.db)))
    × (((flips ≡ []) × (behind_flips ≡ start))
        ⊎ ((1 ≤ length flips)
            × (get_metric "last_boundary_flip_at" null behind_flips.db
                ≡ num (services.clock start.draws))))
note_flips-rows_example = note_flips-rows config services flipping start "v1"

create_one_shot_task-returns_example :
    (b : Bool) × ((v : World) × ((create_one_shot_task config services "boundary-generate"
            target_one "s1" [] start
          ≡ some (b, v))
        × (((b ≡ true)
              × Permitted config services "boundary-generate" target_one start.db
              × ((row : TaskRow) × (Queued "boundary-generate" "v1" row
                    × (v.db.tasks ≡ start.db.tasks ++ row ∷ []))))
            ⊎ ((b ≡ false)
                × (Permitted config services "boundary-generate" target_one start.db → ⊥)
                × (v ≡ start)))))
unfolding Table.has_key
create_one_shot_task-returns_example =
    create_one_shot_task-returns config services "boundary-generate" target_one "s1" [] start refl
      refl
