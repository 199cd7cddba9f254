-- ===== src/Scheduler/Budget/Returns.antt =====
-- What `_create_one_shot_task` returns, and when.
use s2afl.Prelude.{
  ℕ, suc, not, ◌<◌, String, Bool, true, false, ◌&&◌, ◌||◌, Option, some, [], ◌∷◌, ◌++◌, ◌≡◌, ◌≢◌,
  refl, ◌⊎◌, inl, inr, arith, leb, ◌==◌, str_eq, eq_iff, Bool-cases,
}
use s2afl.Dict.{Dict, Json}
use s2afl.StateDb.Schema.{Db, TargetRow, TaskRow}
use s2afl.StateDb.Events.{record_event, event_key}
use s2afl.StateDb.Targets.{activate_target, mark_target_analyzed}
use s2afl.StateDb.Tasks.{task_key, create_task, has_active_task_for_target, count_tasks_for_target}
use s2afl.Table
use s2afl.Scheduler.{
  SchedulerConfig, Services, World, boundary_attempt_limit, is_confirmed_flip_target,
  record_event_now, refuses_task, mark_queued, queue_task, create_one_shot_task,
}
use s2afl.Scheduler.Budget.{Queued, active_for, count-exists, exists-count, queue_task-tasks}

module _ (c : SchedulerConfig) (s : Services) where
  record_event_now-returns :
      (kind : String) (payload : Dict Json) (seed_id : Option String) (w : World)
      → Table.has_key event_key (s.uuid w.draws) w.db.events ≡ false
      → (v : World) × (record_event_now c s kind payload seed_id w ≡ some v)
  unfolding record_event_now record_event Table.insert
  record_event_now-returns kind payload seed_id w fresh = rw fresh (_, refl)

  mark_queued-events :
      (kind : String) (r : TargetRow) (now : ℕ) (db : Db)
      → (mark_queued c s kind r now db).events ≡ db.events
  unfolding mark_queued mark_target_analyzed
  mark_queued-events kind r now db = ground arith

  queue_task-returns :
      (kind : String) (r : TargetRow) (seed_id : String) (payload : Dict Json) (w : World)
      → Table.has_key task_key (s.uuid w.draws) w.db.tasks ≡ false
      → Table.has_key event_key (s.uuid (suc (suc w.draws))) w.db.events ≡ false
      → (v : World) × (queue_task c s kind r seed_id payload w ≡ some v)
  unfolding queue_task create_task Table.insert activate_target
  queue_task-returns kind r seed_id payload w fresh fresh_event = rw fresh (
      record_event_now-returns _ _ _ _
        (rw (mark_queued-events kind r (s.clock w.draws) _) fresh_event))

  -- A vuln task, or a target that was not analyzed and has no task of the kind that waits or runs;
  -- and, for a boundary task, room for one more, or a confirmed flip.
  abbrev pub Permitted : String → TargetRow → Db → Type 0
  Permitted kind r db =
      ((kind ≡ "vuln-generate")
        ⊎ ((r.analyzed ≡ 0) × (Table.count (active_for r.target_id kind) db.tasks ≡ 0)))
      × ((kind ≢ "boundary-generate")
          ⊎ ((count_tasks_for_target r.target_id (some kind) db < boundary_attempt_limit c)
              ⊎ (is_confirmed_flip_target r ≡ true)))

  refuses_task-Permitted :
      (kind : String) (r : TargetRow) (db : Db)
      → refuses_task c s kind r db ≡ false
      → Permitted kind r db
  unfolding refuses_task has_active_task_for_target
  refuses_task-Permitted kind r db h = (
    elim (Bool-cases (str_eq kind "vuln-generate")) [
      | inl e ↦ inl ((eq_iff kind "vuln-generate").0 e)
      | inr e ↦ inr (
        ground (arith, e, h),
        exists-count (active_for r.target_id kind) db.tasks (ground (arith, e, h)),
      )
    ],
    elim (Bool-cases (str_eq kind "boundary-generate")) [
      | inr e ↦
          inl (λ k.
            let hit = (eq_iff kind "boundary-generate").1 k in absurd (ground (arith, e, hit)))
      | inl e ↦ inr (elim (Bool-cases (is_confirmed_flip_target r)) [
        | inl f ↦ inr f
        | inr f ↦ inl (ground (arith, e, f, h))
      ])
    ],
  )

  Permitted-refuses_task :
      (kind : String) (r : TargetRow) (db : Db)
      → Permitted kind r db
      → refuses_task c s kind r db ≡ false
  unfolding refuses_task has_active_task_for_target
  Permitted-refuses_task kind r db (free, room) =
      let first : (not (str_eq kind "vuln-generate") && not (r.analyzed == 0)
            || not (str_eq kind "vuln-generate")
              && Table.exists (active_for r.target_id kind) db.tasks)
          ≡ false =
        elim free [
          | inl e ↦ let hit = (eq_iff kind "vuln-generate").1 e in ground (arith, hit)
          | inr (fresh, idle) ↦
              let none_active = count-exists (active_for r.target_id kind) db.tasks idle in
              ground (arith, fresh, none_active)
        ] in
      let second : (str_eq kind "boundary-generate"
            && (leb (boundary_attempt_limit c) (count_tasks_for_target r.target_id (some kind) db)
                && not (is_confirmed_flip_target r)))
          ≡ false =
        elim room [
          | inl other ↦ elim (Bool-cases (str_eq kind "boundary-generate")) [
            | inl e ↦ absurd (other ((eq_iff kind "boundary-generate").0 e))
            | inr e ↦ ground (arith, e)
          ]
          | inr (inl fits) ↦ ground (arith, fits)
          | inr (inr flip) ↦ ground (arith, flip)
        ] in
      ground (arith, first, second)

  -- `_create_one_shot_task` returns, if the ids that it draws are those of no task and no event.
  -- It returns True and adds one pending task of the kind for the target behind the others if the
  -- task is one for vulnerabilities, or the target was not analyzed and has no task of the kind
  -- that is pending or leased, and, for a boundary task, the attempts are below the limit or the
  -- flip of the target was confirmed; otherwise it returns False and changes nothing.
  pub create_one_shot_task-returns :
      (kind : String) (r : TargetRow) (seed_id : String) (payload : Dict Json) (w : World)
      → Table.has_key task_key (s.uuid w.draws) w.db.tasks ≡ false
      → Table.has_key event_key (s.uuid (suc (suc w.draws))) w.db.events ≡ false
      → (b : Bool) × ((v : World) × ((create_one_shot_task c s kind r seed_id payload w
              ≡ some (b, v))
            × (((b ≡ true)
                  × Permitted kind r w.db
                  × ((row : TaskRow) × (Queued kind r.target_id row
                        × (v.db.tasks ≡ w.db.tasks ++ row ∷ []))))
                ⊎ ((b ≡ false) × (Permitted kind r w.db → ⊥) × (v ≡ w)))))
  unfolding create_one_shot_task
  create_one_shot_task-returns kind r seed_id payload w fresh fresh_event =
      let (v, made) = queue_task-returns kind r seed_id payload w fresh fresh_event in
      elim (Bool-cases (refuses_task c s kind r w.db)) [
        | inl e ↦ (
          false,
          (
            w,
            (
              rw e refl,
              inr (
                refl,
                λ p.
                    let allowed = Permitted-refuses_task kind r w.db p in
                    absurd (ground (arith, e, allowed)),
                refl,
              ),
            ),
          ),
        )
        | inr e ↦ (
          true,
          (
            v,
            (
              rw (e, made) refl,
              inl (
                refl,
                refuses_task-Permitted kind r w.db e,
                queue_task-tasks c s kind r seed_id payload w v made,
              ),
            ),
          ),
        )
      ]
