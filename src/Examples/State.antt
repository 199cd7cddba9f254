-- ===== src/Examples/State.antt =====
-- The theorems on the state database, applied.
use s2afl.Prelude.{
  ℕ, arith, List, ◌≤◌, ◌<◌, String, true, false, none, some, [], ◌∷◌, ◌+◌, ◌≡◌, ◌≢◌, ◌↔◌, refl,
  eq_iff, In, All, ◌⊎◌, length,
}
use s2afl.Dict
use s2afl.Dict.{Dict, Json, str, num, IsDict}
use s2afl.StateDb.Schema.{Db, SeedRow, TaskRow, TargetRow, init_db}
use s2afl.StateDb.Events.{record_event}
use s2afl.StateDb.Seeds.{
  get_seed_row, upsert_seed, list_unreplayed_seed_rows, seen_before, mark_seed_replayed,
}
use s2afl.StateDb.Seeds.Merge.{KeepsHistory, upsert_seed-again, list_unreplayed-mark}
use s2afl.StateDb.Targets.{get_target_row, list_candidate_targets, ranks_before}
use s2afl.StateDb.Targets.Analysis.{
  apply_all, Later, apply_all-grows, list_candidate_targets_lem, activate, analyze,
}
use s2afl.StateDb.Tasks.{
  task_key, claim_next_task, is_pending, claims_before, lease, task_batch_status_counts,
}
use s2afl.StateDb.Tasks.Claim.{claim_next_task_sound, claim_next_task-none}
use s2afl.StateDb.Tasks.Claim.Runs.{stop, claim, Distinct, Run-Distinct}
use s2afl.StateDb.Tasks.Streak.{
  recent_boundary_skip_streak, AreNewest, is_skip, recent_boundary_skip_streak_lem,
}
use s2afl.StateDb.Tasks.Counts.{value_or_zero, task_batch_status_counts_lem}
use s2afl.StateDb.Coverage.{line_row_key, note_covered_lines}
use s2afl.StateDb.Coverage.Growth.{
  hits, occurrences, note_covered_lines-hits, first_cover, note_covered_lines-first,
}
use s2afl.StateDb.Metrics.{add_llm_usage}
use s2afl.StateDb.Metrics.Usage.{counter, add_llm_usage_lem}
use s2afl.Table
use s2afl.Table.Ordered.{Sorted}
use s2afl.Examples.Data.{task_one, task_two, seed_one, target_one, db_one, found_again, line_keys}

Run-Distinct_example : Distinct ("t1" ∷ "t2" ∷ [])
unfolding claim_next_task Table.first_by Table.update Table.has_key
Run-Distinct_example =
    Run-Distinct
      (claim "worker" 150 db_one task_one refl (
        claim "worker" 151 (claim_next_task "worker" 150 db_one).1 task_two refl
          (stop (claim_next_task "worker" 151 (claim_next_task "worker" 150 db_one).1).1)))
      (refl, (refl, tt))

claim_next_task_sound_example :
    In task_one db_one.tasks
    × (task_one.status ≡ "pending")
    × ((t : TaskRow) → In t db_one.tasks → is_pending t ≡ true → claims_before t task_one ≡ false)
    × (Table.find task_key "t1" (claim_next_task "worker" 150 db_one).1.tasks
        ≡ some (lease "worker" 150 task_one))
    × ((j : String)
        → "t1" ≢ j
        → Table.find task_key j (claim_next_task "worker" 150 db_one).1.tasks
          ≡ Table.find task_key j db_one.tasks)
unfolding claim_next_task Table.first_by Table.has_key
claim_next_task_sound_example =
    claim_next_task_sound "worker" 150 db_one task_one (refl, (refl, tt)) refl

claim_next_task-none_example :
    (claim_next_task "worker" 150 init_db ≡ (none, init_db))
    ↔ ((t : TaskRow) → In t init_db.tasks → is_pending t ≡ false)
claim_next_task-none_example = claim_next_task-none "worker" 150 init_db

apply_all-grows_example :
    Later "v1" target_one (apply_all (activate "v1" 90 ∷ analyze "v1" "done" ∷ []) db_one)
unfolding get_target_row Table.find
apply_all-grows_example =
    apply_all-grows (activate "v1" 90 ∷ analyze "v1" "done" ∷ []) "v1" db_one target_one refl

list_candidate_targets_lem_example :
    ((r : TargetRow)
      → In r (list_candidate_targets "vuln" db_one)
        ↔ (In r db_one.targets × (r.kind ≡ "vuln") × (r.analyzed ≡ 0)))
    × Sorted ranks_before (list_candidate_targets "vuln" db_one)
list_candidate_targets_lem_example = list_candidate_targets_lem "vuln" db_one

note_covered_lines-hits_example :
    hits (
      Table.find line_row_key "ftpserv.c:42"
        (note_covered_lines "s2" 80 line_keys db_one).coverage_lines)
    ≡ hits (Table.find line_row_key "ftpserv.c:42" db_one.coverage_lines)
      + occurrences "ftpserv.c:42" line_keys
note_covered_lines-hits_example = note_covered_lines-hits "s2" 80 line_keys db_one "ftpserv.c:42"

note_covered_lines-first_example :
    first_cover (
      Table.find line_row_key "ftpserv.c:50"
        (note_covered_lines "s2" 80 line_keys db_one).coverage_lines)
    ≡ some ("s2", 80)
unfolding Table.find
note_covered_lines-first_example = note_covered_lines-first "s2" 80 line_keys db_one "ftpserv.c:50"

upsert_seed-again_example :
    (new : SeedRow) × (get_seed_row "s1" (upsert_seed found_again db_one) ≡ some new)
    × KeepsHistory seed_one new
    × (new.queue_path ≡ "/q/id:000007")
    × (new.origin ≡ "llm")
    × ((k : String)
        → Dict.get k new.metadata ≡ elim (Dict.get k found_again.metadata) [
          | none ↦ Dict.get k seed_one.metadata
          | some v ↦ some v
        ])
unfolding get_seed_row Table.find Dict.get
upsert_seed-again_example = upsert_seed-again found_again db_one seed_one (refl, tt) refl

list_unreplayed-mark_example :
    ((r : SeedRow)
      → In r (list_unreplayed_seed_rows (mark_seed_replayed "s1" 90 db_one))
        ↔ (In r (list_unreplayed_seed_rows db_one) × (r.seed_id ≢ "s1")))
    × Sorted seen_before (list_unreplayed_seed_rows (mark_seed_replayed "s1" 90 db_one))
list_unreplayed-mark_example = list_unreplayed-mark "s1" 90 db_one (omega arith)

task_batch_status_counts_lem_example :
    value_or_zero
      (Dict.get "total" (task_batch_status_counts "bnd-1" (some "boundary-generate") db_one))
    ≡ 2
unfolding Dict.get
task_batch_status_counts_lem_example =
    task_batch_status_counts_lem "bnd-1" (some "boundary-generate") "total" db_one
      (λ e. cc ((eq_iff "bnd-1" "").1 e))

abbrev db_used : Db
db_used = (add_llm_usage "e1" "advisor" 30 12 0 1 [] 90 init_db).0

add_llm_usage_lem_example :
    (counter "advisor" "calls" db_used ≡ counter "advisor" "calls" init_db + 1)
    × (counter "advisor" "input_tokens" db_used ≡ counter "advisor" "input_tokens" init_db + 30)
    × (counter "advisor" "output_tokens" db_used ≡ counter "advisor" "output_tokens" init_db + 12)
    × (counter "advisor" "reasoning_tokens" db_used
        ≡ counter "advisor" "reasoning_tokens" init_db + 0)
    × (counter "advisor" "total_tokens" db_used
        ≡ counter "advisor" "total_tokens" init_db + (30 + 12))
unfolding add_llm_usage record_event Table.insert Table.has_key Dict.merge Dict.put Dict.get
add_llm_usage_lem_example =
    add_llm_usage_lem "e1" "advisor" 30 12 0 1 [] 90 init_db db_used true refl

abbrev db_skipped : Db
db_skipped = record db_one {
  tasks =
      record task_one { status = "completed"; result = ("decision", str "skip") ∷ [] }
      ∷ task_two
      ∷ [];
}

abbrev streak : List TaskRow
streak = recent_boundary_skip_streak "b1" 1 db_skipped

recent_boundary_skip_streak_lem_example :
    (rows : List TaskRow) × (AreNewest "b1" 1 db_skipped rows
      × (((streak ≡ rows) × (1 ≤ 1) × (length rows ≡ 1) × All (λ r. is_skip r ≡ true) rows)
          ⊎ ((streak ≡ [])
              × ((◌≡◌ {A = ℕ} 1 0)
                  ⊎ ((length rows < 1) ⊎ ((r : TaskRow) × (In r rows × (is_skip r ≡ false))))))))
recent_boundary_skip_streak_lem_example = recent_boundary_skip_streak_lem "b1" 1 db_skipped
