-- ===== src/Scheduler/Life.antt =====
-- The life of a boundary batch: `_refresh_boundary_batch_state`. The batch id is a text.
use mathlib.Core.Option
use mathlib.Core.Option.{some-injective}
use s2afl.Prelude.{
  ℕ, ◌+◌, String, Bool, true, false, not, ◌||◌, Option, none, some, [], ◌∷◌, ◌≡◌, ◌≢◌, refl, sym,
  ap, ◌∙◌, arith, inl, inr, eq_iff, if◌then◌else◌, ◌==◌, Bool-cases, map-some, length, filter,
}
use s2afl.Dict
use s2afl.Dict.{Dict, Json, Fields, null, bool, num, str, arr, obj, end, field, get-put}
use s2afl.StateDb.Tasks.{task_batch_status_counts, in_batch}
use s2afl.StateDb.Tasks.Counts.{value_or_zero, task_batch_status_counts_lem, with_status}
use s2afl.StateDb.Metrics.{update_metric, get_metric}
use s2afl.StateDb.Metrics.Usage.{get-update_metric, get_metric-metrics}
use s2afl.Scheduler.Budget.{record_event_now-metrics}
use s2afl.Scheduler.{SchedulerConfig, Services, World, record_event_now, fields, truthy}

entries : Fields → Dict Json
entries end = []
entries (field k v fs) = (k, v) ∷ entries fs

-- get_metric("active_boundary_batch", {}) or {}, and {} for what is no dict.
unfoldable pub batch_fields : Json → Dict Json
unfolding entries
batch_fields (obj fs) = entries fs
batch_fields _ = []

is_true : Option Json → Bool
unfolding truthy
is_true none = false
is_true (some j) = truthy j

text_of : Option Json → String
text_of (some (str t)) = t
text_of _ = ""

json_or_empty : Option Json → Json
json_or_empty none = arr Dict.nil
json_or_empty (some j) = j

numbers : Dict ℕ → Dict Json
numbers [] = []
numbers ((k, n) ∷ d) = (k, num n) ∷ numbers d

-- The test that leaves the batch open.
is_open : Dict ℕ → Bool
is_open counts =
    value_or_zero (Dict.get "total" counts) == 0
    || not
        (value_or_zero (Dict.get "pending" counts) + value_or_zero (Dict.get "leased" counts) == 0)

batch_fields-obj : (d : Dict Json) → batch_fields (obj (fields d)) ≡ d
unfolding batch_fields entries fields
batch_fields-obj [] = refl
batch_fields-obj ((k, j) ∷ d) = ap (λ (e : Dict Json). (k, j) ∷ e) (batch_fields-obj d)

-- The mark of the batch that the database holds.
abbrev pub stored_active : World → Option Json
stored_active w =
    Dict.get "active" (batch_fields (get_metric "active_boundary_batch" (obj end) w.db))

module _ (c : SchedulerConfig) (s : Services) where
  -- The batch is over: what is written, and the state that is returned.
  close_batch : String → ℕ → Dict ℕ → Dict Json → World → Option (Dict Json × World)
  unfolding record_event_now fields numbers json_or_empty
  close_batch batch_id now counts state w =
      let closed = Dict.put "completed_at" (num now) (Dict.put "active" (bool false) state) in
      let db =
        update_metric "last_boundary_batch_completed_at" (num now) now
          (update_metric "active_boundary_batch" (obj (fields closed)) now w.db) in
      Option.map (λ (v : World). (closed, v))
        (record_event_now c s "boundary_batch_completed"
          (("batch_id", str batch_id)
            ∷ ("completed_at", num now)
            ∷ ("status_counts", obj (fields (numbers counts)))
            ∷ ("target_ids", json_or_empty (Dict.get "target_ids" state))
            ∷ [])
          none (record w { db = db }))

  -- _refresh_boundary_batch_state
  unfoldable pub refresh_boundary_batch_state : ℕ → World → Option (Dict Json × World)
  unfolding batch_fields is_true text_of is_open close_batch numbers fields
  refresh_boundary_batch_state now w =
      let state = batch_fields (get_metric "active_boundary_batch" (obj end) w.db) in
      let batch_id = text_of (Dict.get "batch_id" state) in
      let counts = task_batch_status_counts batch_id (some "boundary-generate") w.db in
      let counted = Dict.put "status_counts" (obj (fields (numbers counts))) state in
      if not (is_true (Dict.get "active" state)) || not (is_true (Dict.get "batch_id" state))
      then some (state, w)
      else if is_open counts
      then some (counted, w)
      else close_batch batch_id now counts counted w

  -- The number of the batch's tasks with a status.
  abbrev pub batch_count : String → String → World → ℕ
  batch_count batch_id status w =
      with_status status (filter (in_batch batch_id (some "boundary-generate")) w.db.tasks)

  abbrev pub batch_total : String → World → ℕ
  batch_total batch_id w = length (filter (in_batch batch_id (some "boundary-generate")) w.db.tasks)

  is_open-counts :
      (batch_id : String) (w : World)
      → batch_id ≢ ""
      → is_open (task_batch_status_counts batch_id (some "boundary-generate") w.db) ≡ (
          batch_total batch_id w == 0
          || not (batch_count batch_id "pending" w + batch_count batch_id "leased" w == 0))
  unfolding is_open
  is_open-counts batch_id w named =
      rw
        (
          task_batch_status_counts_lem batch_id (some "boundary-generate") "total" w.db named,
          task_batch_status_counts_lem batch_id (some "boundary-generate") "pending" w.db named,
          task_batch_status_counts_lem batch_id (some "boundary-generate") "leased" w.db named,
        )
        refl

  closed-active :
      (now : ℕ) (state : Dict Json)
      → Dict.get "active" (Dict.put "completed_at" (num now) (Dict.put "active" (bool false) state))
        ≡ some (bool false)
  closed-active now state =
      get-put "completed_at" "active" (num now) (Dict.put "active" (bool false) state)
      ∙ get-put "active" "active" (bool false) state

  close_batch-active :
      (batch_id : String) (now : ℕ) (counts : Dict ℕ) (state d : Dict Json) (w v : World)
      → close_batch batch_id now counts state w ≡ some (d, v)
      → Dict.get "active" d ≡ some (bool false)
  unfolding close_batch
  close_batch-active batch_id now counts state d w v h =
      let (u, (recorded, same)) = map-some _ _ (d, v) h in
      ap (λ (t : Dict Json × World). Dict.get "active" t.0) (sym same) ∙ closed-active now state

  -- The closed batch is what the database holds.
  close_batch-stored :
      (batch_id : String) (now : ℕ) (counts : Dict ℕ) (state d : Dict Json) (w v : World)
      → close_batch batch_id now counts state w ≡ some (d, v)
      → stored_active v ≡ some (bool false)
  unfolding close_batch
  close_batch-stored batch_id now counts state d w v h =
      let (u, (recorded, same)) = map-some _ _ (d, v) h in
      let closed = Dict.put "completed_at" (num now) (Dict.put "active" (bool false) state) in
      let written = update_metric "active_boundary_batch" (obj (fields closed)) now w.db in
      let db = update_metric "last_boundary_batch_completed_at" (num now) now written in
      let kept : get_metric "active_boundary_batch" (obj end) v.db ≡ obj (fields closed) =
        ap (λ (t : Dict Json × World). get_metric "active_boundary_batch" (obj end) t.1.db)
          (sym same)
        ∙ get_metric-metrics "active_boundary_batch" (obj end) u.db db
            (record_event_now-metrics c s _ _ _ (record w { db = db }) u recorded)
        ∙ get-update_metric "last_boundary_batch_completed_at" "active_boundary_batch" (num now)
            (obj end) now written
        ∙ get-update_metric "active_boundary_batch" "active_boundary_batch" (obj (fields closed))
            (obj end) now w.db in
      ap (λ (j : Json). Dict.get "active" (batch_fields j)) kept
      ∙ ap (λ (e : Dict Json). Dict.get "active" e) (batch_fields-obj closed)
      ∙ closed-active now state

  -- The batch has no task at all, or one that is pending or leased.
  abbrev pub goes_on : String → World → Bool
  goes_on batch_id w =
      batch_total batch_id w == 0
      || not (batch_count batch_id "pending" w + batch_count batch_id "leased" w == 0)

  -- For a batch that is active, with an id that is a text and not empty, a call of
  -- `_refresh_boundary_batch_state` that returns gives it back, and leaves it stored in the
  -- database, as active exactly when it has no task at all or one that is pending or leased.
  pub refresh_boundary_batch_state_lem :
      (now : ℕ) (w v : World) (batch_id : String) (d : Dict Json)
      → batch_id ≢ ""
      → stored_active w ≡ some (bool true)
      → Dict.get "batch_id" (batch_fields (get_metric "active_boundary_batch" (obj end) w.db))
        ≡ some (str batch_id)
      → refresh_boundary_batch_state now w ≡ some (d, v)
      → (Dict.get "active" d ≡ some (bool (goes_on batch_id w)))
        × (stored_active v ≡ some (bool (goes_on batch_id w)))
  unfolding refresh_boundary_batch_state is_true text_of
  refresh_boundary_batch_state_lem now w v batch_id d named active named_id h =
      let state = batch_fields (get_metric "active_boundary_batch" (obj end) w.db) in
      let counts = task_batch_status_counts batch_id (some "boundary-generate") w.db in
      let counted = Dict.put "status_counts" (obj (fields (numbers counts))) state in
      let same_id : text_of (Dict.get "batch_id" state) ≡ batch_id = rw named_id refl in
      let test : (not (is_true (Dict.get "active" state))
            || not (is_true (Dict.get "batch_id" state)))
          ≡ false =
        rw (active, named_id) (unfold truthy in ground (arith, eq_iff batch_id "", named)) in
      let condition = is_open-counts batch_id w named in
      let step : refresh_boundary_batch_state now w ≡ (
          if is_open counts then some (counted, w) else close_batch batch_id now counts counted w) =
        rw (refresh_boundary_batch_state, same_id, test) refl in
      elim (Bool-cases (is_open counts)) [
        | inl e ↦
            let returned : some (counted, w) ≡ some (d, v) = ground (arith, step, e, h) in
            let is_true_now = ap (λ (b : Bool). some (bool b)) (sym e ∙ condition) in
            (
              ap (λ (t : Dict Json × World). Dict.get "active" t.0)
                    (sym (some-injective _ _ returned))
                  ∙ get-put "status_counts" "active" (obj (fields (numbers counts))) state
                  ∙ active
                  ∙ is_true_now,
              ap (λ (t : Dict Json × World). stored_active t.1) (sym (some-injective _ _ returned))
                  ∙ active
                  ∙ is_true_now,
            )
        | inr e ↦
            let closed : close_batch batch_id now counts counted w ≡ some (d, v) =
              ground (arith, step, e, h) in
            let is_false_now = ap (λ (b : Bool). some (bool b)) (sym e ∙ condition) in
            (
              close_batch-active batch_id now counts counted d w v closed ∙ is_false_now,
              close_batch-stored batch_id now counts counted d w v closed ∙ is_false_now,
            )
      ]
