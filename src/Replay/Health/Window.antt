-- ===== src/Replay/Health/Window.antt =====
-- The window of the replay health.
use s2afl.Prelude.{
  ℕ, suc, ◌-◌, true, not, ◌&&◌, some, List, [], ◌∷◌, ◌≡◌, refl, sym, ap, ◌∙◌, if◌then◌else◌, ◌==◌,
  length, length-append, length-drop, min, Bool-cases, inl, inr, arith,
}
use s2afl.Dict.{Json, obj, end}
use s2afl.StateDb.Metrics.{update_metric, get_metric}
use s2afl.StateDb.Metrics.Usage.{get-update_metric}
use s2afl.Scheduler.{SchedulerConfig, Services, World, record_event_now, truthy, fields}
use s2afl.Scheduler.Budget.{record_event_now-metrics}
use s2afl.Scheduler.Replay.{field_of}
use s2afl.Scheduler.Results.{CoverageReplayResult}
use s2afl.Replay.Health.{
  HealthConfig, setting, entries_of, recent_of, last_part, num_items, is_degraded, health_payload,
  recent_with, record_replay_health,
}

-- The metric "replay_health".
abbrev pub health_of : World → Json
health_of w = get_metric "replay_health" (obj end) w.db

entries-num_items : (ns : List ℕ) → entries_of (num_items ns) ≡ ns
unfolding entries_of num_items
entries-num_items [] = refl
entries-num_items (n ∷ ns) = ap (λ (l : List ℕ). n ∷ l) (entries-num_items ns)

length-last_part :
    (n : ℕ) (xs : List ℕ)
    → length (last_part n xs) ≡ (if n == 0 then length xs else min n (length xs))
unfolding last_part
length-last_part n xs = ground (arith, length-drop (length xs - n) xs)

module _ (h : HealthConfig) (c : SchedulerConfig) (s : Services) where
  recent_of-payload :
      (metric : Json) (recent : List ℕ) (result : CoverageReplayResult) (now : ℕ)
      → recent_of (obj (fields (health_payload h metric recent result now))) ≡ recent
  unfolding recent_of health_payload fields field_of
  recent_of-payload metric recent result now = entries-num_items recent

  degraded-payload :
      (metric : Json) (recent : List ℕ) (result : CoverageReplayResult) (now : ℕ)
      → truthy (field_of "degraded" (obj (fields (health_payload h metric recent result now))))
        ≡ is_degraded h recent
  unfolding health_payload fields field_of truthy
  degraded-payload metric recent result now = refl

  length-recent_with :
      (metric : Json) (result : CoverageReplayResult)
      → length (recent_with h metric result)
        ≡ suc (
            if setting h.window_size 64 == 1
            then length (recent_of metric)
            else min (setting h.window_size 64 - 1) (length (recent_of metric)))
  unfolding recent_with setting
  length-recent_with metric result =
      let n = setting h.window_size 64 - 1 in
      let last = last_part n (recent_of metric) in
      ground (
        arith,
        length-append last ((if result.replay_accepted then 1 else 0) ∷ []),
        length-last_part n (recent_of metric),
      )

  health-of_metrics : (w w' : World) → w'.db.metrics ≡ w.db.metrics → health_of w' ≡ health_of w
  unfolding get_metric
  health-of_metrics w w' e = rw e refl

  -- The state behind the write of the metric.
  noted : Json → World → World
  noted value w = record {
    db = update_metric "replay_health" value (s.clock w.draws) w.db;
    draws = suc w.draws;
  }

  health-noted : (value : Json) (w : World) → health_of (noted value w) ≡ value
  unfolding noted
  health-noted value w =
      get-update_metric "replay_health" "replay_health" value (obj end) (s.clock w.draws) w.db

  health-written :
      (result : CoverageReplayResult) (w w' : World)
      → h.enabled ≡ true
      → record_replay_health h c s result w ≡ some w'
      → health_of w'
        ≡ obj (
            fields (
              health_payload h
                (health_of w)
                (recent_with h (health_of w) result)
                result
                (s.clock w.draws)))
  unfolding record_replay_health noted
  health-written result w w' on e =
      let recent = recent_with h (health_of w) result in
      let payload = health_payload h (health_of w) recent result (s.clock w.draws) in
      let value = obj (fields payload) in
      elim (Bool-cases (is_degraded h recent && not (truthy (field_of "degraded" (health_of w))))) [
        | inl d ↦
            let recorded : record_event_now c s "replay_health_degraded" payload
                  (some result.seed_id) (noted value w)
                ≡ some w' =
              ground (arith, on, d) in
            health-of_metrics (noted value w) w' (
              record_event_now-metrics c s "replay_health_degraded" payload (some result.seed_id)
                (noted value w) w' recorded)
            ∙ health-noted value w
        | inr d ↦
            let same : noted value w ≡ w' = ground (arith, on, d) in
            ap (λ (v : World). health_of v) (sym same) ∙ health-noted value w
      ]

  -- A call of `_record_replay_health` that returns, with the check enabled, leaves one sample more
  -- than were kept of those before, which are at most the window less one, or all of them under a
  -- window of one; and the "degraded" that it stores is that of the samples it leaves.
  pub record_replay_health-window :
      (result : CoverageReplayResult) (w w' : World)
      → h.enabled ≡ true
      → record_replay_health h c s result w ≡ some w'
      → (length (recent_of (health_of w'))
          ≡ suc (
              if setting h.window_size 64 == 1
              then length (recent_of (health_of w))
              else min (setting h.window_size 64 - 1) (length (recent_of (health_of w)))))
        × (truthy (field_of "degraded" (health_of w')) ≡ is_degraded h (recent_of (health_of w')))
  record_replay_health-window result w w' on e =
      let metric = health_of w in
      let recent = recent_with h metric result in
      let payload = obj (fields (health_payload h metric recent result (s.clock w.draws))) in
      let written = health-written result w w' on e in
      let kept = recent_of-payload metric recent result (s.clock w.draws) in
      (
        ap (λ (j : Json). length (recent_of j)) written
            ∙ ap (λ (l : List ℕ). length l) kept
            ∙ length-recent_with metric result,
        ap (λ (j : Json). truthy (field_of "degraded" j)) written
            ∙ degraded-payload metric recent result (s.clock w.draws)
            ∙ ap (λ (l : List ℕ). is_degraded h l)
                (sym (ap (λ (j : Json). recent_of j) written ∙ kept)),
      )
