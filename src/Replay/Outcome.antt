-- ===== src/Replay/Outcome.antt =====
-- What a replay counts as: `_scheduler_accepts_replay`, the reason of a result,
-- `_collect_hit_targets` and `_detect_boundary_flips`.
use Prim.Native.String.{◌++◌}
use s2afl.Prelude.{
  ℕ, String, Bool, true, false, not, ◌||◌, List, [], ◌∷◌, str_eq, if◌then◌else◌, ltb, any, is_some,
}
use s2afl.Scheduler.Results.{MessageDelta}
use s2afl.Knowledge.Points.{Builtins, add_new}
use s2afl.Knowledge.Coverage.{Hits, behind_prefix}

-- _scheduler_accepts_replay
unfoldable pub scheduler_accepts_replay : String → Bool → ℕ → ℕ → ℕ → Bool
scheduler_accepts_replay lane replay_accepted new_lines new_branches flipped_count =
    if not replay_accepted
    then false
    else if str_eq lane "coverage"
    then true
    else if str_eq lane "generated-handoff"
    then ltb 0 new_lines || ltb 0 new_branches || ltb 0 flipped_count
    else false

-- result_reason of `_build_success_result`.
unfoldable pub result_reason : String → Bool → Bool → String
result_reason lane replay_accepted scheduler_accepted =
    if scheduler_accepted
    then "ok"
    else if not replay_accepted
    then "empty-coverage"
    else if str_eq lane "generated-handoff"
    then "handoff-no-new-coverage"
    else lane ++ "-not-scheduler-accepted"

add_ids : List String → List String → List String
unfolding add_new
add_ids [] ids = ids
add_ids (id ∷ more) ids = add_ids more (add_new id ids)

collect_from : List MessageDelta → Hits → Hits
unfolding add_ids
collect_from [] h = h
collect_from (d ∷ deltas) h = collect_from deltas (record {
  boundary_ids = add_ids d.hit_boundary_target_ids h.boundary_ids;
  vuln_ids = add_ids d.hit_vuln_target_ids h.vuln_ids;
})

-- _collect_hit_targets
unfoldable pub collect_hit_targets : List MessageDelta → Hits
unfolding collect_from
collect_hit_targets deltas = collect_from deltas (record { boundary_ids = []; vuln_ids = [] })

-- _detect_boundary_flips, for the target and the missing branch of the seed's metadata and the
-- branches of the snapshot.
unfoldable pub detect_boundary_flips : Builtins → String → String → List String → List String
unfolding behind_prefix
detect_boundary_flips b target missing_branch branches =
    let target_id = b.strip target in
    let missing_branch_key = b.strip missing_branch in
    if not (is_some (behind_prefix "boundary:" target_id)) || str_eq missing_branch_key ""
    then []
    else if any (λ k. str_eq k missing_branch_key) branches
    then target_id ∷ []
    else []
