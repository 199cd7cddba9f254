-- ===== src/Scheduler/Replay/Health.antt =====
-- A round of `_consume_coverage_results` up to its gates leaves the health of the replay.
use mathlib.Core.Option.{some-injective}
use s2afl.Prelude.{
  ap, sym, String, Bool, true, false, not, ◌||◌, Option, some, List, [], ◌∷◌, ◌≡◌, refl, ◌∙◌, arith,
  inl, inr, str_eq, if◌then◌else◌, ◌==◌, length, Bool-cases, Option-cases,
}
use Prim.Native.String.{◌++◌ as append}
use s2afl.StateDb.Schema.{Db}
use s2afl.StateDb.Targets.{TargetRecord, set_target_analysis_result, upsert_target, upsert_targets}
use s2afl.StateDb.Metrics.{get_metric}
use s2afl.StateDb.Metrics.Usage.{get-update_metric, get_metric-metrics}
use s2afl.Dict.{Json, obj, end}
use s2afl.Scheduler.{SchedulerConfig, Services, World}
use s2afl.Scheduler.Vuln.{ensure_materialized_target, materialize, update_target_count_metric}
use s2afl.Scheduler.Results.{CoverageReplayResult}
use s2afl.Scheduler.Budget.{record_event_now-metrics}
use s2afl.Scheduler.Replay.{
  collect_vuln_target_ids, split_materialized, backfeed_generated_handoff_vuln_targets,
  flip_targets, note_flips,
}

-- The second branch of a test that fails.
pub if_false :
    (t : Bool) (a b : Option World) (v : World)
    → t ≡ false
    → (if t then a else b) ≡ some v
    → b ≡ some v
if_false true a b v e h = cc
if_false false a b v e h = h

-- The metric of `_record_replay_health`.
abbrev pub health : Db → Json
health db = get_metric "replay_health" (obj end) db

module _ (c : SchedulerConfig) (s : Services) where
  upsert_targets-metrics :
      (records : List TargetRecord) (db : Db) → (upsert_targets records db).metrics ≡ db.metrics
  unfolding upsert_targets upsert_target
  upsert_targets-metrics [] db = refl
  upsert_targets-metrics (t ∷ records) db = upsert_targets-metrics records (upsert_target t db)

  health-materialize :
      (records : List TargetRecord) (w : World)
      → health (materialize c s records w).db ≡ health w.db
  unfolding materialize update_target_count_metric
  health-materialize [] w = refl
  health-materialize (t ∷ records) w =
      get-update_metric "target_count" "replay_health" _ (obj end) _
        (upsert_targets (t ∷ records) w.db)
      ∙ get_metric-metrics "replay_health" (obj end) _ w.db
          (upsert_targets-metrics (t ∷ records) w.db)

  health-ensure :
      (target_id : String) (w : World)
      → health (ensure_materialized_target c s target_id w).1.db ≡ health w.db
  unfolding ensure_materialized_target
  health-ensure target_id w =
      ground (arith, health-materialize (s.materialize_targets_by_id (target_id ∷ [])) w)

  health-split :
      (ids : List String) (w : World) → health (split_materialized c s ids w).1.db ≡ health w.db
  unfolding split_materialized
  health-split [] w = refl
  health-split (t ∷ ids) w =
      let found = ensure_materialized_target c s t w in
      let rest = health-split ids found.1 in
      let one = health-ensure t w in
      elim (Option-cases found.0) [
        | inl e ↦ ground (arith, e, rest, one)
        | inr (r, e) ↦ ground (arith, e, rest, one)
      ]

  flip_targets-metrics :
      (seed_id : String) (ids : List String) (db : Db)
      → (flip_targets c s seed_id ids db).metrics ≡ db.metrics
  unfolding flip_targets set_target_analysis_result
  flip_targets-metrics seed_id [] db = refl
  flip_targets-metrics seed_id (t ∷ ids) db =
      flip_targets-metrics seed_id ids
        (set_target_analysis_result t (append "branch-flipped:" seed_id) db)

  pub health-note_flips :
      (result : CoverageReplayResult) (w : World)
      → health (note_flips c s result w).db ≡ health w.db
  unfolding note_flips
  health-note_flips result w =
      let flipped = flip_targets c s result.seed_id result.flipped_boundary_target_ids w.db in
      elim (Bool-cases (length result.flipped_boundary_target_ids == 0)) [
        | inl e ↦ rw e refl
        | inr e ↦ rw e (
            get-update_metric "last_boundary_flip_at" "replay_health" _ (obj end) _ flipped
            ∙ get_metric-metrics "replay_health" (obj end) flipped w.db
                (flip_targets-metrics result.seed_id result.flipped_boundary_target_ids w.db))
      ]

  pub health-backfeed :
      (result : CoverageReplayResult) (w v : World)
      → backfeed_generated_handoff_vuln_targets c s result w ≡ some v
      → health v.db ≡ health w.db
  unfolding backfeed_generated_handoff_vuln_targets
  health-backfeed result w v h =
      let ids = collect_vuln_target_ids result in
      elim (Bool-cases
        (not (str_eq result.measurement_lane "generated-handoff") || length ids == 0)) [
          | inl e ↦
              let same : w ≡ v = some-injective _ _ (ground (arith, e, h)) in
              ap (λ (x : World). health x.db) (sym same)
          | inr e ↦
              get_metric-metrics "replay_health" (obj end) v.db (split_materialized c s ids w).1.db
                (record_event_now-metrics c s _ _ _ (split_materialized c s ids w).1 v (
                  if_false
                    (not (str_eq result.measurement_lane "generated-handoff") || length ids == 0) _
                    _ v e h))
              ∙ health-split ids w
        ]
