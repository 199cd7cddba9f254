-- ===== src/Replay/Health.antt =====
-- `_record_replay_health` on the metric "replay_health". The division of the failures by the samples
-- and its comparison with the threshold are arguments.
pub mod Window
use s2afl.Prelude.{
  ℕ, suc, ◌+◌, ◌-◌, String, Bool, true, false, not, ◌&&◌, ◌||◌, Option, none, some, List, [], ◌∷◌,
  ◌++◌, str_eq, if◌then◌else◌, ◌==◌, leb, length, drop, filter, max,
}
use s2afl.Dict.{Dict, Json, Fields, Items, null, bool, num, str, arr, obj, end, field, nil, cons}
use s2afl.StateDb.Schema.{Db}
use s2afl.StateDb.Metrics.{update_metric, get_metric}
use s2afl.Scheduler.{SchedulerConfig, Services, World, record_event_now, truthy, fields}
use s2afl.Scheduler.Replay.{field_of}
use s2afl.Scheduler.Results.{CoverageReplayResult}

pub record HealthConfig : Type 0 where
  pub enabled : Bool
  pub window_size : ℕ
  pub min_samples : ℕ
  pub rate : ℕ → ℕ → Json
  pub reaches_threshold : ℕ → ℕ → Bool

-- max(1, int(value or default))
unfoldable pub setting : ℕ → ℕ → ℕ
setting value default = max 1 (if value == 0 then default else value)

-- int of the entries of a list.
entries_of : Items → List ℕ
entries_of nil = []
entries_of (cons (num n) items) = n ∷ entries_of items
entries_of (cons j items) = 0 ∷ entries_of items

-- list(metric.get("recent") or [])
unfoldable pub recent_of : Json → List ℕ
unfolding field_of entries_of
recent_of metric = elim (field_of "recent" metric) [ arr items ↦ entries_of items | _ ↦ [] ]

unfoldable pub int_of : Json → ℕ
int_of (num n) = n
int_of _ = 0

-- xs[-n:], all of them for 0.
unfoldable pub last_part : ℕ → List ℕ → List ℕ
last_part n xs = if n == 0 then xs else drop (length xs - n) xs

num_items : List ℕ → Items
num_items [] = nil
num_items (n ∷ ns) = cons (num n) (num_items ns)

unfoldable pub failures_in : List ℕ → ℕ
failures_in recent = length (filter (λ n. n == 0) recent)

module _ (h : HealthConfig) where
  unfoldable pub is_degraded : List ℕ → Bool
  unfolding setting failures_in
  is_degraded recent =
      leb (setting h.min_samples 16) (length recent)
      && h.reaches_threshold (failures_in recent) (max (length recent) 1)

  unfoldable pub health_payload : Json → List ℕ → CoverageReplayResult → ℕ → Dict Json
  unfolding is_degraded int_of field_of num_items failures_in
  health_payload metric recent result now =
      ("total", num (int_of (field_of "total" metric) + 1))
      ∷ (
        "failures",
        num (int_of (field_of "failures" metric) + (if result.replay_accepted then 0 else 1)),
      )
      ∷ ("recent", arr (num_items recent))
      ∷ ("recent_count", num (length recent))
      ∷ ("recent_failures", num (failures_in recent))
      ∷ ("recent_failure_rate", h.rate (failures_in recent) (max (length recent) 1))
      ∷ ("degraded", bool (is_degraded recent))
      ∷ ("last_reason", str result.reason)
      ∷ ("last_lane", str result.measurement_lane)
      ∷ ("updated_at", num now)
      ∷ []

  unfoldable pub recent_with : Json → CoverageReplayResult → List ℕ
  unfolding last_part recent_of setting
  recent_with metric result =
      last_part (setting h.window_size 64 - 1) (recent_of metric)
      ++ (if result.replay_accepted then 1 else 0) ∷ []

module _ (h : HealthConfig) (c : SchedulerConfig) (s : Services) where
  -- _record_replay_health
  unfoldable pub record_replay_health : CoverageReplayResult → World → Option World
  unfolding recent_with health_payload is_degraded truthy field_of fields record_event_now
  record_replay_health result w =
      let metric = get_metric "replay_health" (obj end) w.db in
      let recent = recent_with h metric result in
      let payload = health_payload h metric recent result (s.clock w.draws) in
      let noted : World = record {
        db = update_metric "replay_health" (obj (fields payload)) (s.clock w.draws) w.db;
        draws = suc w.draws;
      } in
      if not h.enabled
      then some w
      else if is_degraded h recent && not (truthy (field_of "degraded" metric))
      then record_event_now c s "replay_health_degraded" payload (some result.seed_id) noted
      else some noted
