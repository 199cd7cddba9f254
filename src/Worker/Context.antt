-- ===== src/Worker/Context.antt =====
-- The step of a task and the prefix that it needs: `_required_success_prefix_from_context`,
-- `_resolve_task_step_index`, `_validate_boundary_context`, the prefix of a seed's metadata and
-- `_boundary_llm_retirement_reason`. An int that Python cannot read is `none`.
pub mod Steps
use s2afl.Prelude.{
  ℕ, zero, suc, ◌+◌, ◌-◌, String, Bool, true, false, not, ◌&&◌, ◌||◌, Option, none, some, List, [],
  ◌∷◌, map, Text, codes, text_eq, ltb, leb, ◌==◌, if◌then◌else◌, length, any, min, max, ℤ, pos,
  negsuc, clamp,
}
use s2afl.Text.{upper, lower, strip, member}
use s2afl.Text.Replace.{contains}
use s2afl.Seed.{message_method}

-- max(0, i)
unfoldable pub nonnegative : ℤ → ℕ
nonnegative (pos n) = n
nonnegative (negsuc n) = 0

-- _required_success_prefix_from_context, for the ints of the plan's target_message_index (the
-- context's step where it is missing), of the context's step_index and of
-- stateful_required_prefix_messages (the target where it is missing).
unfoldable pub required_success_prefix_from_context : Option ℤ → ℤ → Option ℤ → ℕ
unfolding nonnegative
required_success_prefix_from_context planned step_index stateful =
    let target : ℕ = elim planned [ none ↦ nonnegative step_index | some i ↦ nonnegative i ] in
    let required : ℕ = elim stateful [ none ↦ target | some i ↦ nonnegative i ] in
    if target == 0 then 0 else min target (max required target)

-- The first message from `index` on with one of the commands.
unfoldable pub find_command : List Text → ℕ → List Text → Option ℕ
unfolding message_method upper member
find_command commands index [] = none
find_command commands index (m ∷ messages) =
    let rest = find_command commands (suc index) messages in
    if member (upper (message_method m)) commands then some index else rest

-- _resolve_task_step_index, for the payload's step_index, 0 where it is missing.
unfoldable pub resolve_task_step_index : Bool → ℤ → List Text → List Text → ℕ
unfolding find_command
resolve_task_step_index is_boundary step_index commands messages =
    let requested = clamp 0 (length messages - 1) step_index in
    if length messages == 0
    then 0
    else if not is_boundary
    then requested
    else if length commands == 0
    then requested
    else elim (find_command commands 0 messages) [ none ↦ requested | some index ↦ index ]

-- What `_validate_boundary_context` returns; `context_fits` is the empty text.
pub data ContextCheck : Type 0 where
  context_fits : ContextCheck
  not_branch_exact : Text → ContextCheck
  missing_target_command : Text → ContextCheck

-- context_kind or "none"
kind_or_none : Text → Text
kind_or_none [] = codes "none"
kind_or_none (c ∷ s) = c ∷ s

check_commands : List Text → List Text → ContextCheck
unfolding upper strip member
check_commands [] methods = context_fits
check_commands (command ∷ commands) methods =
    if any (λ m. member (upper (strip m)) (command ∷ commands)) methods
    then context_fits
    else missing_target_command command

-- _validate_boundary_context, for the reason of the payload, the kind of the context, the commands of
-- the target and the methods of the context.
unfoldable pub validate_boundary_context : Bool → Text → Text → List Text → List Text → ContextCheck
unfolding check_commands kind_or_none strip text_eq
validate_boundary_context is_boundary reason kind commands methods =
    let context_kind = strip kind in
    if not is_boundary
    then context_fits
    else if text_eq (strip reason) (codes "uncovered-branch-side")
        && not (text_eq context_kind (codes "branch-exact"))
    then not_branch_exact (kind_or_none context_kind)
    else check_commands commands methods

-- _metadata_has_validated_prefix, for the prefix that was replayed and the first failure.
unfoldable pub metadata_has_validated_prefix : ℕ → Option ℕ → ℕ → Bool
metadata_has_validated_prefix replay_prefix first_failure required =
    if required == 0
    then true
    else leb required replay_prefix
      && elim first_failure [ none ↦ true | some step ↦ leb required step ]

abbrev hard_markers : List String
hard_markers =
    "no protocol field controls" ∷ "not protocol field" ∷ "not protocol reachable"
    ∷ "no protocol path" ∷ "internal config" ∷ "runtime config" ∷ "not protocol controllable"
    ∷ "not reachable from protocol" ∷ "protocol unreachable" ∷ []

-- _boundary_llm_retirement_reason, for the decision, the stage and the reason of a result.
unfoldable pub boundary_llm_retirement_reason : Text → Text → Text → Text
unfolding upper lower strip text_eq member contains
boundary_llm_retirement_reason decision agent_stage given =
    let reason = strip given in
    if not (text_eq (upper (strip decision)) (codes "SKIP"))
    then []
    else if not (
        member (lower (strip agent_stage))
          (map codes ("plan" ∷ "critic" ∷ "generate" ∷ "revise-plan" ∷ [])))
    then []
    else if any (λ m. contains (lower reason) (codes m)) hard_markers
    then reason
    else []
