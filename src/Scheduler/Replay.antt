-- ===== src/Scheduler/Replay.antt =====
-- The scheduler on replay results: `_consume_coverage_results` for one result, with what it calls.
pub mod Flips
pub mod Health
pub mod Keeps
use s2afl.Prelude.{
  suc, String, Bool, not, ◌&&◌, ◌||◌, Option, none, some, List, [], ◌∷◌, ◌++◌, str_eq,
  if◌then◌else◌, ◌==◌, any, length, ◌>>=◌,
}
use Prim.Native.String.{◌++◌ as append}
use s2afl.Dict.{Json, Fields, Items, null, bool, num, str, arr, obj, end, field, nil, cons}
use s2afl.StateDb.Schema.{Db}
use s2afl.StateDb.Targets.{set_target_analysis_result}
use s2afl.StateDb.Metrics.{update_metric, get_metric}
use s2afl.Scheduler.{SchedulerConfig, Services, World, record_event_now, truthy}
use s2afl.Scheduler.Vuln.{ensure_materialized_target, schedule_vuln_tasks}
use s2afl.Scheduler.Results.{MessageDelta, CoverageReplayResult}

-- `if target_id and target_id not in seen: …` over one list.
collect : List String → List String → List String
collect [] ordered = ordered
collect (t ∷ ids) ordered =
    let more = collect ids (ordered ++ t ∷ []) in
    let same = collect ids ordered in
    if not (str_eq t "") && not (any (λ u. str_eq t u) ordered) then more else same

collect_deltas : List MessageDelta → List String → List String
unfolding collect
collect_deltas [] ordered = ordered
collect_deltas (d ∷ deltas) ordered = collect_deltas deltas (collect d.hit_vuln_target_ids ordered)

-- _collect_vuln_target_ids
unfoldable pub collect_vuln_target_ids : CoverageReplayResult → List String
unfolding collect_deltas
collect_vuln_target_ids result =
    collect_deltas result.message_deltas (collect result.hit_vuln_target_ids [])

items_of : List String → Items
items_of [] = nil
items_of (t ∷ ids) = cons (str t) (items_of ids)

unfoldable pub field_in : String → Fields → Json
field_in key end = null
field_in key (field k v rest) = if str_eq k key then v else field_in key rest

unfoldable pub field_of : String → Json → Json
unfolding field_in
field_of key (obj fs) = field_in key fs
field_of key _ = null

module _ (c : SchedulerConfig) (s : Services) where
  -- The targets that are there or can be made, and those that cannot.
  split_materialized : List String → World → (List String × List String) × World
  unfolding ensure_materialized_target
  split_materialized [] w = (([], []), w)
  split_materialized (t ∷ ids) w =
      let found = ensure_materialized_target c s t w in
      let rest = split_materialized ids found.1 in
      elim found.0 [
        | some r ↦ ((t ∷ (rest.0).0, (rest.0).1), rest.1)
        | none ↦ (((rest.0).0, t ∷ (rest.0).1), rest.1)
      ]

  -- _backfeed_generated_handoff_vuln_targets
  pub backfeed_generated_handoff_vuln_targets : CoverageReplayResult → World → Option World
  unfolding split_materialized collect_vuln_target_ids record_event_now items_of
  backfeed_generated_handoff_vuln_targets result w =
      let ids = collect_vuln_target_ids result in
      let split = split_materialized ids w in
      if not (str_eq result.measurement_lane "generated-handoff") || length ids == 0
      then some w
      else record_event_now c s "generated_handoff_vuln_backfeed"
          (("measurement_lane", str result.measurement_lane)
            ∷ ("accepted", bool result.accepted)
            ∷ ("replay_accepted", bool result.replay_accepted)
            ∷ ("scheduler_accepted", bool result.scheduler_accepted)
            ∷ ("reason", str result.reason)
            ∷ ("materialized_target_ids", arr (items_of (split.0).0))
            ∷ ("missing_target_ids", arr (items_of (split.0).1))
            ∷ [])
          (some result.seed_id) split.1

  -- _replay_feedback_degraded
  replay_feedback_degraded : Bool → Db → Bool
  unfolding field_of truthy
  replay_feedback_degraded pause db =
      pause && truthy (field_of "degraded" (get_metric "replay_health" (obj end) db))

  flip_targets : String → List String → Db → Db
  flip_targets seed_id [] db = db
  flip_targets seed_id (t ∷ ids) db =
      flip_targets seed_id ids (set_target_analysis_result t (append "branch-flipped:" seed_id) db)

  -- The flips of a result, and the time of the last one.
  pub note_flips : CoverageReplayResult → World → World
  unfolding flip_targets
  note_flips result w = if length result.flipped_boundary_target_ids == 0 then w else record {
    db =
        update_metric "last_boundary_flip_at" (num (s.clock w.draws)) (s.clock w.draws)
          (flip_targets result.seed_id result.flipped_boundary_target_ids w.db);
    draws = suc w.draws;
  }

  -- The end of a round: vuln tasks for a result of a generated seed that was replayed and not accepted,
  -- and for an accepted one, unless the replay is degraded or vuln tasks are off.
  schedule_result : Bool → Bool → CoverageReplayResult → World → Option World
  unfolding replay_feedback_degraded schedule_vuln_tasks
  schedule_result pause enable_vuln_tasks result w =
      let degraded = replay_feedback_degraded pause w.db in
      let handoff =
        str_eq result.measurement_lane "generated-handoff"
        && result.replay_accepted
        && not result.accepted
        && not (length result.hit_vuln_target_ids == 0) in
      if (handoff || result.accepted) && not degraded && enable_vuln_tasks
      then schedule_vuln_tasks c s result w
      else some w

  -- One round of `_consume_coverage_results`, behind the append to the last 64 results.
  unfoldable pub consume_coverage_result : Bool → Bool → CoverageReplayResult → World → Option World
  unfolding note_flips backfeed_generated_handoff_vuln_targets schedule_result
  consume_coverage_result pause enable_vuln_tasks result w = do
    v ← backfeed_generated_handoff_vuln_targets result (note_flips result w)
    schedule_result pause enable_vuln_tasks result v
