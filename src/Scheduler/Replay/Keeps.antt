-- ===== src/Scheduler/Replay/Keeps.antt =====
-- A round of `_consume_coverage_results`: when it may add tasks, and the budget that it keeps.
use mathlib.Core.Path.{subst}
use mathlib.Core.Option.{some-injective}
use s2afl.Prelude.{
  ap, sym, ◌⊎◌, ◌≤◌, eq_iff, String, Bool, true, false, not, ◌&&◌, ◌||◌, some, List, [], ◌∷◌, ◌≡◌,
  refl, ◌∙◌, arith, inl, inr, str_eq, ◌==◌, length, Bool-cases, Option-cases, bind-some,
}
use Prim.Native.String.{◌++◌ as append}
use s2afl.StateDb.Schema.{Db}
use s2afl.StateDb.Targets.{set_target_analysis_result}
use s2afl.StateDb.Metrics.{update_metric}
use s2afl.Dict.{Json}
use s2afl.Scheduler.{SchedulerConfig, Services, World, truthy}
use s2afl.Scheduler.Vuln.{ensure_materialized_target}
use s2afl.Scheduler.Results.{CoverageReplayResult}
use s2afl.Scheduler.Budget.{same-HasBudget, same-IsSingle, record_event_now-tasks}
use s2afl.Scheduler.Budget.Vuln.{
  KeepsBudget, vuln_budget, ensure-tasks, schedule_vuln_tasks-KeepsBudget,
}
use s2afl.Scheduler.Replay.Health.{if_false, health, health-note_flips, health-backfeed}
use s2afl.Scheduler.Replay.{
  field_of, collect_vuln_target_ids, split_materialized, backfeed_generated_handoff_vuln_targets,
  replay_feedback_degraded, flip_targets, note_flips, schedule_result, consume_coverage_result,
}

module _ (c : SchedulerConfig) (s : Services) where
  same-KeepsBudget : (db db' : Db) → db'.tasks ≡ db.tasks → KeepsBudget c db → KeepsBudget c db'
  same-KeepsBudget db db' same (budget, single) = (
    same-HasBudget "vuln-generate" (vuln_budget c) db db' same budget,
    same-IsSingle "vuln-generate" db db' same single,
  )

  split_materialized-tasks :
      (ids : List String) (w : World) → (split_materialized c s ids w).1.db.tasks ≡ w.db.tasks
  unfolding split_materialized
  split_materialized-tasks [] w = refl
  split_materialized-tasks (t ∷ ids) w =
      let found = ensure_materialized_target c s t w in
      let rest = split_materialized-tasks ids found.1 in
      let one = ensure-tasks c s t w in
      elim (Option-cases found.0) [
        | inl e ↦ ground (arith, e, rest, one)
        | inr (r, e) ↦ ground (arith, e, rest, one)
      ]

  flip_targets-tasks :
      (seed_id : String) (ids : List String) (db : Db)
      → (flip_targets c s seed_id ids db).tasks ≡ db.tasks
  unfolding flip_targets set_target_analysis_result
  flip_targets-tasks seed_id [] db = refl
  flip_targets-tasks seed_id (t ∷ ids) db =
      flip_targets-tasks seed_id ids
        (set_target_analysis_result t (append "branch-flipped:" seed_id) db)

  note_flips-tasks :
      (result : CoverageReplayResult) (w : World) → (note_flips c s result w).db.tasks ≡ w.db.tasks
  unfolding note_flips update_metric
  note_flips-tasks result w =
      ground (arith, flip_targets-tasks result.seed_id result.flipped_boundary_target_ids w.db)

  backfeed-tasks :
      (result : CoverageReplayResult) (w v : World)
      → backfeed_generated_handoff_vuln_targets c s result w ≡ some v
      → v.db.tasks ≡ w.db.tasks
  unfolding backfeed_generated_handoff_vuln_targets
  backfeed-tasks result w v h =
      let ids = collect_vuln_target_ids result in
      elim (Bool-cases
        (not (str_eq result.measurement_lane "generated-handoff") || length ids == 0)) [
          | inl e ↦ ground (arith, e, h)
          | inr e ↦
              record_event_now-tasks c s _ _ _ (split_materialized c s ids w).1 v (
                if_false
                  (not (str_eq result.measurement_lane "generated-handoff") || length ids == 0) _ _
                  v e h)
              ∙ split_materialized-tasks ids w
        ]

  -- What a round needs that adds tasks: vuln tasks are on, the replay is not paused for a health that
  -- is degraded, and the result is accepted, or hit vulnerabilities with a generated seed that the
  -- replay accepted.
  abbrev pub MaySchedule : Bool → Bool → CoverageReplayResult → Db → Type 0
  MaySchedule pause enable_vuln_tasks result db =
      (enable_vuln_tasks ≡ true)
      × ((pause ≡ false) ⊎ (truthy (field_of "degraded" (health db)) ≡ false))
      × ((result.accepted ≡ true)
          ⊎ ((result.measurement_lane ≡ "generated-handoff")
              × (result.replay_accepted ≡ true)
              × (1 ≤ length result.hit_vuln_target_ids)))

  degraded-cases :
      (pause : Bool) (db : Db)
      → replay_feedback_degraded c s pause db ≡ false
      → (pause ≡ false) ⊎ (truthy (field_of "degraded" (health db)) ≡ false)
  unfolding replay_feedback_degraded
  degraded-cases pause db h = elim (Bool-cases pause) [
    | inl e ↦ inr (ground (arith, e, h))
    | inr e ↦ inl e
  ]

  schedule_result-cases :
      (pause enable_vuln_tasks : Bool) (result : CoverageReplayResult) (w v : World)
      → schedule_result c s pause enable_vuln_tasks result w ≡ some v
      → KeepsBudget c w.db
      → ((v.db.tasks ≡ w.db.tasks) ⊎ MaySchedule pause enable_vuln_tasks result w.db)
        × KeepsBudget c v.db
  unfolding schedule_result
  schedule_result-cases pause enable_vuln_tasks result w v h keeps =
      let handoff =
        str_eq result.measurement_lane "generated-handoff"
        && result.replay_accepted
        && not result.accepted
        && not (length result.hit_vuln_target_ids == 0) in
      let test =
        (handoff || result.accepted)
        && not (replay_feedback_degraded c s pause w.db)
        && enable_vuln_tasks in
      elim (Bool-cases test) [
        | inl e ↦ (
          inr (
            ground (arith, e),
            degraded-cases pause w.db (ground (arith, e)),
            elim (Bool-cases result.accepted) [
              | inl a ↦ inl a
              | inr a ↦
                  let passes : handoff ≡ true = ground (arith, e, a) in
                  inr (
                    (eq_iff result.measurement_lane "generated-handoff").0 (ground (arith, passes)),
                    ground (arith, passes),
                    ground (arith, passes),
                  )
            ],
          ),
          schedule_vuln_tasks-KeepsBudget c s result w v (ground (arith, e, h)) keeps,
        )
        | inr e ↦
            let same : w ≡ v = some-injective _ _ (ground (arith, e, h)) in
            (
              inl (ap (λ (x : World). x.db.tasks) (sym same)),
              subst (λ (x : World). KeepsBudget c x.db) same keeps,
            )
      ]

  -- A round of `_consume_coverage_results` that ends adds a task only if vuln tasks are on, the
  -- stored health of the replay is not degraded or does not pause them, and the result is accepted
  -- or is a generated handoff that the replay accepted and that hit a vulnerability; and it keeps
  -- every target within the budget of vuln tasks and leaves none with two that are pending or
  -- leased, if that is so before.
  pub consume_coverage_result-KeepsBudget :
      (pause enable_vuln_tasks : Bool) (result : CoverageReplayResult) (w v : World)
      → consume_coverage_result c s pause enable_vuln_tasks result w ≡ some v
      → KeepsBudget c w.db
      → ((v.db.tasks ≡ w.db.tasks) ⊎ MaySchedule pause enable_vuln_tasks result w.db)
        × KeepsBudget c v.db
  unfolding consume_coverage_result
  consume_coverage_result-KeepsBudget pause enable_vuln_tasks result w v h keeps =
      let flipped = note_flips c s result w in
      let (u, (fed, scheduled)) =
        bind-some (backfeed_generated_handoff_vuln_targets c s result flipped)
          (schedule_result c s pause enable_vuln_tasks result) v h in
      let same : u.db.tasks ≡ w.db.tasks =
        backfeed-tasks result flipped u fed ∙ note_flips-tasks result w in
      let healthy : health u.db ≡ health w.db =
        health-backfeed c s result flipped u fed ∙ health-note_flips c s result w in
      let (adds, kept) =
        schedule_result-cases pause enable_vuln_tasks result u v scheduled
          (same-KeepsBudget w.db u.db same keeps) in
      (
        elim adds [
          | inl e ↦ inl (e ∙ same)
          | inr (on, steady, hit) ↦ inr (
            on,
            elim steady [
              | inl e ↦ inl e
              | inr e ↦ inr (ap (λ (j : Json). truthy (field_of "degraded" j)) (sym healthy) ∙ e)
            ],
            hit,
          )
        ],
        kept,
      )
