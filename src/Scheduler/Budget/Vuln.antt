-- ===== src/Scheduler/Budget/Vuln.antt =====
-- The budget of `_schedule_vuln_tasks`.
use mathlib.Core.Path.{subst}
use mathlib.Core.Option
use mathlib.Core.Option.{some-injective}
use s2afl.Prelude.{
  ℕ, ◌+◌, ◌<◌, String, Bool, false, not, ◌&&◌, some, List, [], ◌∷◌, ◌++◌, ◌≡◌, refl, sym, ◌∙◌, ◌⊎◌,
  inl, inr, arith, leb, str_eq, eq_iff, Bool-cases, Option-cases, bind-some, map-some,
}
use s2afl.Dict.{Dict, Json, num}
use s2afl.StateDb.Schema.{Db, TargetRow, TaskRow}
use s2afl.StateDb.Targets.{
  TargetRecord, target_key, upsert_target, upsert_targets, mark_target_analyzed, get_target_row,
}
use s2afl.StateDb.Tasks.{
  kind_matches, has_task_for_target_seed, has_active_task_for_target, count_tasks_for_target,
}
use s2afl.StateDb.Metrics.{update_metric}
use s2afl.Table
use s2afl.Table.Laws.{find-key}
use s2afl.Scheduler.{SchedulerConfig, Services, World, create_one_shot_task, at_least_one}
use s2afl.Scheduler.Vuln.{
  Override, vuln_limit_override, generated_override, refused, ensure_materialized_target,
  materialize, update_target_count_metric, record_vuln_gate, over_limit, vuln_payload,
  schedule_vuln_row, schedule_vuln_target, schedule_vuln_targets, schedule_vuln_deltas,
  schedule_vuln_tasks,
}
use s2afl.Scheduler.Results.{MessageDelta, CoverageReplayResult}
use s2afl.Scheduler.Budget.{
  HasBudget, IsSingle, active_for, Queued, count-room, exists-count, create_one_shot_task-cases,
  same-HasBudget, same-IsSingle, record_event_now-tasks,
}

-- The number of vuln tasks that a target may get.
abbrev pub vuln_budget : SchedulerConfig → ℕ
vuln_budget c = at_least_one 1 c.max_vuln_tasks + c.max_vuln_generated_extra_tasks_per_target

override-room :
    (c : SchedulerConfig) (result : CoverageReplayResult) (target_id : String) (n m : ℕ) (db : Db)
    → (leb m n && not (vuln_limit_override c result target_id n m db).allowed) ≡ false
    → n < m + c.max_vuln_generated_extra_tasks_per_target
unfolding vuln_limit_override refused generated_override
override-room c result target_id n m db h = ground arith

module _ (c : SchedulerConfig) (s : Services) where
  upsert_targets-tasks :
      (records : List TargetRecord) (db : Db) → (upsert_targets records db).tasks ≡ db.tasks
  unfolding upsert_targets upsert_target
  upsert_targets-tasks [] db = refl
  upsert_targets-tasks (t ∷ records) db = upsert_targets-tasks records (upsert_target t db)

  materialize-tasks :
      (records : List TargetRecord) (w : World) → (materialize c s records w).db.tasks ≡ w.db.tasks
  unfolding materialize update_target_count_metric update_metric
  materialize-tasks [] w = refl
  materialize-tasks (t ∷ records) w = upsert_targets-tasks (t ∷ records) w.db

  pub ensure-tasks :
      (target_id : String) (w : World)
      → (ensure_materialized_target c s target_id w).1.db.tasks ≡ w.db.tasks
  unfolding ensure_materialized_target
  ensure-tasks target_id w =
      ground (arith, materialize-tasks (s.materialize_targets_by_id (target_id ∷ [])) w)

  ensure-key :
      (target_id : String) (w : World) (r : TargetRow)
      → (ensure_materialized_target c s target_id w).0 ≡ some r
      → r.target_id ≡ target_id
  unfolding ensure_materialized_target get_target_row
  ensure-key target_id w r h = elim (Option-cases (Table.find target_key target_id w.db.targets)) [
    | inl e ↦
        let w' = materialize c s (s.materialize_targets_by_id (target_id ∷ [])) w in
        find-key target_key target_id w'.db.targets r (ground (arith, e))
    | inr (q, e) ↦ find-key target_key target_id w.db.targets r (ground (arith, e))
  ]

  record_vuln_gate-tasks :
      (result : CoverageReplayResult) (target_id : String) (delta : MessageDelta) (reason : String)
      (extra : Dict Json) (w v : World)
      → record_vuln_gate c s result target_id delta reason extra w ≡ some v
      → v.db.tasks ≡ w.db.tasks
  unfolding record_vuln_gate
  record_vuln_gate-tasks result target_id delta reason extra w v h =
      record_event_now-tasks c s _ _ _ w v h

  -- Either no task is added, or one for the target, which had none that is active and fewer than its
  -- budget.
  abbrev Step : String → Db → Db → Type 0
  Step target_id db db' =
      (db'.tasks ≡ db.tasks)
      ⊎ ((row : TaskRow) × (Queued "vuln-generate" target_id row
            × (db'.tasks ≡ db.tasks ++ row ∷ [])
            × (count_tasks_for_target target_id (some "vuln-generate") db < vuln_budget c)
            × (has_active_task_for_target target_id (some "vuln-generate") db ≡ false)))

  -- A step depends on the task table only.
  from_tasks :
      (target_id : String) (mid db db' : Db)
      → mid.tasks ≡ db.tasks
      → Step target_id mid db'
      → Step target_id db db'
  unfolding count_tasks_for_target has_active_task_for_target
  from_tasks target_id mid db db' same step =
      subst
        (λ (l : List TaskRow).
          (db'.tasks ≡ l)
          ⊎ ((row : TaskRow) × (Queued "vuln-generate" target_id row
                × (db'.tasks ≡ l ++ row ∷ [])
                × (Table.count
                      (λ (r : TaskRow).
                        str_eq r.target_id target_id && kind_matches (some "vuln-generate") r)
                      l
                    < vuln_budget c)
                × (Table.exists (active_for target_id "vuln-generate") l ≡ false))))
        same step

  over_limit-tasks :
      (result : CoverageReplayResult) (delta : MessageDelta) (target_id : String) (r : TargetRow)
      (n m : ℕ) (o : Override) (w v : World)
      → over_limit c s result delta target_id r n m o w ≡ some v
      → v.db.tasks ≡ w.db.tasks
  unfolding over_limit mark_target_analyzed
  over_limit-tasks result delta target_id r n m o w v h =
      let (u, (gate, marked)) = bind-some _ _ v h in
      let same = record_vuln_gate-tasks result target_id delta _ _ w u gate in ground (arith, same)

  schedule_vuln_row-Step :
      (result : CoverageReplayResult) (delta : MessageDelta) (target_id : String) (r : TargetRow)
      (w v : World)
      → r.target_id ≡ target_id
      → schedule_vuln_row c s result delta target_id r w ≡ some v
      → Step target_id w.db v.db
  unfolding schedule_vuln_row
  schedule_vuln_row-Step result delta target_id r w v key h =
      let limit = at_least_one 1 c.max_vuln_tasks in
      let n = count_tasks_for_target target_id (some "vuln-generate") w.db in
      let o = vuln_limit_override c result target_id n limit w.db in
      elim (Bool-cases (leb limit n && not o.allowed)) [
        | inl e ↦ inl (over_limit-tasks result delta target_id r n limit o w v (ground (arith, e)))
        | inr e ↦
            elim (Bool-cases
              (has_task_for_target_seed target_id result.seed_id (some "vuln-generate") w.db)) [
                | inl f ↦ inl (
                    record_vuln_gate-tasks result target_id delta "duplicate-target-seed"
                      (("task_count", num n) ∷ []) w v (ground (arith, e, f)))
                | inr f ↦
                    elim (Bool-cases
                      (has_active_task_for_target target_id (some "vuln-generate") w.db)) [
                        | inl g ↦ inl (
                            record_vuln_gate-tasks result target_id delta "active-task-exists"
                              (("task_count", num n) ∷ []) w v (ground (arith, e, f, g)))
                        | inr g ↦
                            let made : Option.map (λ (t : Bool × World). t.1)
                                  (create_one_shot_task c s "vuln-generate" r result.seed_id
                                    (vuln_payload c s delta r target_id n limit o) w)
                                ≡ some v =
                              ground (arith, e, f, g) in
                            let ((b, u), (call, same)) = map-some _ _ v made in
                            let payload = vuln_payload c s delta r target_id n limit o in
                            subst (λ (x : World). Step target_id w.db x.db) same
                              (elim (create_one_shot_task-cases c s "vuln-generate" r result.seed_id
                                payload w u b call) [
                                  | inl (_, t) ↦ inl t
                                  | inr (_, (row, ((k, q, p), t))) ↦ inr (
                                    row,
                                    (
                                      (k, q ∙ key, p),
                                      t,
                                      override-room c result target_id n limit w.db e,
                                      g,
                                    ),
                                  )
                                ])
                      ]
              ]
      ]

  schedule_vuln_target-Step :
      (result : CoverageReplayResult) (delta : MessageDelta) (target_id : String) (w v : World)
      → schedule_vuln_target c s result delta target_id w ≡ some v
      → Step target_id w.db v.db
  unfolding schedule_vuln_target
  schedule_vuln_target-Step result delta target_id w v h =
      let found = ensure_materialized_target c s target_id w in
      let same = ensure-tasks target_id w in
      elim (Option-cases found.0) [
        | inl e ↦ inl (
            record_vuln_gate-tasks result target_id delta "missing-target" [] found.1 v
              (ground (arith, e))
            ∙ same)
        | inr (r, e) ↦ from_tasks target_id found.1.db w.db v.db same (
            schedule_vuln_row-Step result delta target_id r found.1 v (ensure-key target_id w r e)
              (ground (arith, e)))
      ]

-- A target's vuln tasks keep to the budget, and no two of them are pending or leased.
abbrev pub KeepsBudget : SchedulerConfig → Db → Type 0
KeepsBudget c db = HasBudget "vuln-generate" (vuln_budget c) db × IsSingle "vuln-generate" db

module _ (c : SchedulerConfig) (s : Services) where
  Step-KeepsBudget :
      (target_id : String) (db db' : Db)
      → Step c s target_id db db'
      → KeepsBudget c db
      → KeepsBudget c db'
  Step-KeepsBudget target_id db db' (inl same) (budget, single) = (
    same-HasBudget "vuln-generate" _ db db' same budget,
    same-IsSingle "vuln-generate" db db' same single,
  )
  Step-KeepsBudget target_id db db' (inr (row, ((k, g, p), t, room, idle))) (budget, single) = (
    λ j.
        (unfold count_tasks_for_target in
          rw t (
            count-room _ db.tasks row (vuln_budget c) (budget j) (λ q.
              let at : row.target_id ≡ j = ground (arith, eq_iff row.target_id j) in
              subst
                (λ (x : String). count_tasks_for_target x (some "vuln-generate") db < vuln_budget c)
                (sym g ∙ at) room))),
    λ j. rw t (
        count-room _ db.tasks row 1 (single j) (λ q.
          let at : row.target_id ≡ j = ground (arith, eq_iff row.target_id j) in
          let none_active =
            exists-count (active_for target_id "vuln-generate") db.tasks
              (unfold has_active_task_for_target in idle) in
          subst (λ (x : String). Table.count (active_for x "vuln-generate") db.tasks < 1)
            (sym g ∙ at) (omega (arith, none_active)))),
  )

  targets-KeepsBudget :
      (result : CoverageReplayResult) (delta : MessageDelta) (ids : List String) (w v : World)
      → schedule_vuln_targets c s result delta ids w ≡ some v
      → KeepsBudget c w.db
      → KeepsBudget c v.db
  unfolding schedule_vuln_targets
  targets-KeepsBudget result delta [] w v h keeps =
      subst (λ (x : World). KeepsBudget c x.db) (some-injective _ _ h) keeps
  targets-KeepsBudget result delta (target_id ∷ ids) w v h keeps =
      let (u, (step, rest)) = bind-some _ _ v h in
      let kept =
        Step-KeepsBudget target_id w.db u.db
          (schedule_vuln_target-Step c s result delta target_id w u step) keeps in
      targets-KeepsBudget result delta ids u v rest kept

  deltas-KeepsBudget :
      (result : CoverageReplayResult) (deltas : List MessageDelta) (w v : World)
      → schedule_vuln_deltas c s result deltas w ≡ some v
      → KeepsBudget c w.db
      → KeepsBudget c v.db
  unfolding schedule_vuln_deltas
  deltas-KeepsBudget result [] w v h keeps =
      subst (λ (x : World). KeepsBudget c x.db) (some-injective _ _ h) keeps
  deltas-KeepsBudget result (delta ∷ deltas) w v h keeps =
      let (u, (step, rest)) = bind-some _ _ v h in
      deltas-KeepsBudget result deltas u v rest
        (targets-KeepsBudget result delta delta.hit_vuln_target_ids w u step keeps)

  -- A call of `_schedule_vuln_tasks` that ends keeps every target within the limit of vuln tasks
  -- plus the extra budget, and leaves no target with two vuln tasks that are pending or leased, if
  -- that is so before the call.
  pub schedule_vuln_tasks-KeepsBudget :
      (result : CoverageReplayResult) (w v : World)
      → schedule_vuln_tasks c s result w ≡ some v
      → KeepsBudget c w.db
      → KeepsBudget c v.db
  unfolding schedule_vuln_tasks
  schedule_vuln_tasks-KeepsBudget result w v h keeps =
      deltas-KeepsBudget result result.message_deltas w v h keeps
