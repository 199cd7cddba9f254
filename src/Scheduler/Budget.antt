-- ===== src/Scheduler/Budget.antt =====
-- The budgets of `_create_one_shot_task` and `_schedule_vuln_tasks`: how many tasks a target gets.
pub mod Returns
pub mod Vuln
use mathlib.Core.Path.{subst}
use mathlib.Core.Option
use mathlib.Core.Option.{some-injective}
use s2afl.Prelude.{
  suc, not, ℕ, zero, suc, ◌+◌, ◌-◌, ◌≤◌, ◌<◌, String, Bool, true, false, not, ◌&&◌, ◌||◌, Option,
  none, some, List, [], ◌∷◌, ◌++◌, ◌≡◌, ◌≢◌, refl, sym, ap, ◌∙◌, ◌⊎◌, inl, inr, arith, ltb, leb,
  ◌==◌, max, str_eq, str_eq_refl, eq_iff, filter, length, length-append, if◌then◌else◌, Bool-cases,
  Option-cases, ◌>>=◌, bind-some, map-some, leb→le, ltb→lt,
}
use s2afl.Dict.{Dict, Json}
use s2afl.StateDb.Schema.{Db, TargetRow, TaskRow}
use s2afl.StateDb.Events.{record_event, event_key}
use s2afl.StateDb.Targets.{
  TargetRecord, target_key, upsert_target, upsert_targets, activate_target, mark_target_analyzed,
  get_target_row,
}
use s2afl.StateDb.Tasks.{
  task_key, new_task, create_task, kind_matches, is_active, has_active_task_for_target,
  count_tasks_for_target,
}
use s2afl.StateDb.Metrics.{update_metric}
use s2afl.Table
use s2afl.Table.Laws.{find-key}
use s2afl.Scheduler.{
  SchedulerConfig, Services, World, boundary_attempt_limit, is_confirmed_flip_target,
  record_event_now, refuses_task, mark_queued, queue_task, create_one_shot_task, fields,
  at_least_one,
}
use s2afl.Scheduler.Vuln.{
  Override, vuln_limit_override, generated_override, generated_module, refused,
  ensure_materialized_target, materialize, update_target_count_metric, record_vuln_gate,
  schedule_vuln_target, schedule_vuln_targets, schedule_vuln_deltas, schedule_vuln_tasks,
}
use s2afl.Scheduler.Results.{MessageDelta, CoverageReplayResult}

module _ {Row : Type 0} where
  filter-append :
      (p : Row → Bool) (xs ys : List Row) → filter p (xs ++ ys) ≡ filter p xs ++ filter p ys
  filter-append p [] ys = refl
  filter-append p (x ∷ xs) ys = ground (arith, filter-append p xs ys)

  pub count-append :
      (p : Row → Bool) (rows : List Row) (r : Row)
      → Table.count p (rows ++ r ∷ []) ≡ Table.count p rows + (if p r then 1 else 0)
  unfolding Table.count
  count-append p rows r =
      rw (filter-append p rows (r ∷ []), length-append (filter p rows) (filter p (r ∷ [])))
        (ground arith)

  pub exists-count :
      (p : Row → Bool) (rows : List Row) → Table.exists p rows ≡ false → Table.count p rows ≡ 0
  unfolding Table.count Table.exists
  exists-count p [] h = refl
  exists-count p (r ∷ rows) h = ground (arith, exists-count p rows)

  pub count-exists :
      (p : Row → Bool) (rows : List Row) → Table.count p rows ≡ 0 → Table.exists p rows ≡ false
  unfolding Table.count Table.exists
  count-exists p [] h = refl
  count-exists p (r ∷ rows) h = ground (arith, h, count-exists p rows)

-- The row of a task of a kind that waits for a worker.
abbrev pub Queued : String → String → TaskRow → Type 0
Queued kind target_id row =
    (row.kind ≡ kind) × (row.target_id ≡ target_id) × (row.status ≡ "pending")

create_task-row :
    (task_id kind protocol subject seed_id target_id : String) (priority : ℕ) (payload : Dict Json)
    (now : ℕ) (db db' : Db)
    → create_task task_id kind protocol subject seed_id target_id priority payload now db ≡ some db'
    → db'.tasks
      ≡ db.tasks
        ++ new_task task_id kind protocol subject seed_id target_id priority payload now ∷ []
unfolding create_task Table.insert
create_task-row task_id kind protocol subject seed_id target_id priority payload now db db' h =
    ground arith

module _ (c : SchedulerConfig) (s : Services) where
  pub record_event_now-tasks :
      (kind : String) (payload : Dict Json) (seed_id : Option String) (w v : World)
      → record_event_now c s kind payload seed_id w ≡ some v
      → v.db.tasks ≡ w.db.tasks
  unfolding record_event_now record_event Table.insert
  record_event_now-tasks kind payload seed_id w v h = ground arith

  pub record_event_now-metrics :
      (kind : String) (payload : Dict Json) (seed_id : Option String) (w v : World)
      → record_event_now c s kind payload seed_id w ≡ some v
      → v.db.metrics ≡ w.db.metrics
  unfolding record_event_now record_event Table.insert
  record_event_now-metrics kind payload seed_id w v h = ground arith

  mark_queued-tasks :
      (kind : String) (r : TargetRow) (now : ℕ) (db : Db)
      → (mark_queued c s kind r now db).tasks ≡ db.tasks
  unfolding mark_queued mark_target_analyzed
  mark_queued-tasks kind r now db = ground arith

  pub queue_task-tasks :
      (kind : String) (r : TargetRow) (seed_id : String) (payload : Dict Json) (w v : World)
      → queue_task c s kind r seed_id payload w ≡ some v
      → (row : TaskRow) × (Queued kind r.target_id row × (v.db.tasks ≡ w.db.tasks ++ row ∷ []))
  unfolding queue_task
  queue_task-tasks kind r seed_id payload w v h =
      let now = s.clock w.draws in
      let activated = if r.first_activation_ts == 0 then now else r.first_activation_ts in
      let priority = s.priority_value r.info_rank activated payload in
      let (db, (created, recorded)) = bind-some _ _ v h in
      let inserted =
        create_task-row (s.uuid w.draws) kind c.protocol c.subject seed_id r.target_id priority
          payload (s.clock (suc w.draws)) (activate_target r.target_id now w.db) db created in
      (
        new_task (s.uuid w.draws) kind c.protocol c.subject seed_id r.target_id priority payload
            (s.clock (suc w.draws)),
        (
          (refl, refl, refl),
          record_event_now-tasks _ _ _ _ v recorded
              ∙ mark_queued-tasks kind r now db
              ∙ inserted
              ∙ (unfold activate_target in refl),
        ),
      )

  -- Either the tests refuse the task and nothing happens, or they do not, and one pending task of the
  -- kind for the target is added behind the others.
  create_one_shot_task-cases :
      (kind : String) (r : TargetRow) (seed_id : String) (payload : Dict Json) (w v : World)
      (b : Bool)
      → create_one_shot_task c s kind r seed_id payload w ≡ some (b, v)
      → ((refuses_task c s kind r w.db ≡ true) × (v.db.tasks ≡ w.db.tasks))
        ⊎ ((refuses_task c s kind r w.db ≡ false)
            × ((row : TaskRow) × (Queued kind r.target_id row
                  × (v.db.tasks ≡ w.db.tasks ++ row ∷ []))))
  unfolding create_one_shot_task
  create_one_shot_task-cases kind r seed_id payload w v b h =
      elim (Bool-cases (refuses_task c s kind r w.db)) [
        | inl e ↦ inl (e, ground (arith, e))
        | inr e ↦
            let queued : Option.map (λ (v : World). (true, v))
                  (queue_task c s kind r seed_id payload w)
                ≡ some (b, v) =
              ground (arith, e) in
            let (u, (made, same)) = map-some _ _ (b, v) queued in
            let (row, (q, tasks)) = queue_task-tasks kind r seed_id payload w u made in
            inr (e, (row, (q, ap (λ (t : Bool × World). t.1.db.tasks) (sym same) ∙ tasks)))
      ]

-- A bound on the rows that pass a test holds for one more row, if there is room for it.
count-room :
    (p : TaskRow → Bool) (rows : List TaskRow) (row : TaskRow) (n : ℕ)
    → Table.count p rows ≤ n
    → (p row ≡ true → Table.count p rows < n)
    → Table.count p (rows ++ row ∷ []) ≤ n
count-room p rows row n h room = elim (Bool-cases (p row)) [
  | inl e ↦ let less = room e in rw (count-append p rows row, e) (omega (arith, less))
  | inr e ↦ rw (count-append p rows row, e) (omega (arith, h))
]

-- The rows that `has_active_task_for_target` looks for.
abbrev pub active_for : String → String → TaskRow → Bool
active_for target_id kind r =
    str_eq r.target_id target_id && kind_matches (some kind) r && is_active r

-- Every target has at most `n` tasks of a kind.
abbrev pub HasBudget : String → ℕ → Db → Type 0
HasBudget kind n db = (t : String) → count_tasks_for_target t (some kind) db ≤ n

-- No target has two tasks of a kind that are pending or leased.
abbrev pub IsSingle : String → Db → Type 0
IsSingle kind db = (t : String) → Table.count (active_for t kind) db.tasks ≤ 1

pub same-HasBudget :
    (kind : String) (n : ℕ) (db db' : Db)
    → db'.tasks ≡ db.tasks
    → HasBudget kind n db
    → HasBudget kind n db'
unfolding count_tasks_for_target
same-HasBudget kind n db db' same h t = rw same (h t)

pub same-IsSingle :
    (kind : String) (db db' : Db) → db'.tasks ≡ db.tasks → IsSingle kind db → IsSingle kind db'
same-IsSingle kind db db' same h t = rw same (h t)

module _ (c : SchedulerConfig) (s : Services) where
  refuses-room :
      (r : TargetRow) (db : Db)
      → refuses_task c s "boundary-generate" r db ≡ false
      → is_confirmed_flip_target r ≡ false
      → count_tasks_for_target r.target_id (some "boundary-generate") db < boundary_attempt_limit c
  unfolding refuses_task
  refuses-room r db h unflipped = ground (arith, unflipped)

  refuses-idle :
      (r : TargetRow) (db : Db)
      → refuses_task c s "boundary-generate" r db ≡ false
      → Table.count (active_for r.target_id "boundary-generate") db.tasks ≡ 0
  unfolding refuses_task has_active_task_for_target
  refuses-idle r db h =
      exists-count (active_for r.target_id "boundary-generate") db.tasks (ground arith)

  -- A call of `_create_one_shot_task` that returns, whatever the kind of the task, keeps every
  -- target within the attempt limit of boundary tasks and gives none two boundary tasks that are
  -- pending or leased, if that is so before and the row is not one of a confirmed flip.
  pub create_one_shot_task-HasBudget :
      (kind : String) (r : TargetRow) (seed_id : String) (payload : Dict Json) (w v : World)
      (b : Bool)
      → create_one_shot_task c s kind r seed_id payload w ≡ some (b, v)
      → is_confirmed_flip_target r ≡ false
      → HasBudget "boundary-generate" (boundary_attempt_limit c) w.db
      → IsSingle "boundary-generate" w.db
      → HasBudget "boundary-generate" (boundary_attempt_limit c) v.db
        × IsSingle "boundary-generate" v.db
  create_one_shot_task-HasBudget kind r seed_id payload w v b h unflipped budget single =
      elim (create_one_shot_task-cases c s kind r seed_id payload w v b h) [
        | inl (e, same) ↦ (
          same-HasBudget "boundary-generate" _ w.db v.db same budget,
          same-IsSingle "boundary-generate" w.db v.db same single,
        )
        | inr (e, (row, ((k, g, p), tasks))) ↦ (
          λ t.
              (unfold count_tasks_for_target in
                rw tasks (
                  count-room _ w.db.tasks row (boundary_attempt_limit c) (budget t) (λ q.
                    let same_target : row.target_id ≡ t = ground (arith, eq_iff row.target_id t) in
                    let same_kind : row.kind ≡ "boundary-generate" =
                      ground (arith, eq_iff row.kind "boundary-generate") in
                    let e' =
                      subst (λ (x : String). refuses_task c s x r w.db ≡ false) (sym k ∙ same_kind)
                        e in
                    let fits = refuses-room r w.db e' unflipped in
                    subst
                      (λ (x : String).
                        count_tasks_for_target x (some "boundary-generate") w.db
                        < boundary_attempt_limit c)
                      (sym g ∙ same_target) fits))),
          λ t. rw tasks (
              count-room _ w.db.tasks row 1 (single t) (λ q.
                let same_target : row.target_id ≡ t = ground (arith, eq_iff row.target_id t) in
                let same_kind : row.kind ≡ "boundary-generate" =
                  ground (arith, eq_iff row.kind "boundary-generate") in
                let e' =
                  subst (λ (x : String). refuses_task c s x r w.db ≡ false) (sym k ∙ same_kind) e in
                subst
                  (λ (x : String). Table.count (active_for x "boundary-generate") w.db.tasks < 1)
                  (sym g ∙ same_target)
                  (let none_active = refuses-idle r w.db e' in omega (arith, none_active)))),
        )
      ]
