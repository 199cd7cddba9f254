-- ===== src/Worker/Validate.antt =====
-- `_validate_candidate_seed`. The numbers of the plan are those that `int` returns, 0 where a value is
-- missing; `max_line_length` and `target_message_index` are not negative.
pub mod Accepted
use s2afl.Prelude.{
  ℕ, zero, suc, ◌+◌, Bool, true, false, not, ◌&&◌, ◌||◌, Option, none, some, List, [], ◌∷◌, Text, ℤ,
  clamp, pos, negsuc, text_eq, ltb, ◌==◌, if◌then◌else◌, length, take, filter, any, all, map, join,
  max, is_some,
}
use s2afl.Text.{is_space, member}
use s2afl.Policy.{ProtocolMutationPolicy}
use s2afl.Seed.{split_by_policy, message_method}
use s2afl.Knowledge.{Templates}
use s2afl.Executor.Prefix.{texts_eq}
use s2afl.Worker.Chain.{has_required_prefix_chain}
use s2afl.Worker.Bodies.{
  line_body_region_allowed, region_without_start_allowed, content_length_consistent,
}
use s2afl.Worker.Clean.{message_looks_sendable, is_known}
use s2afl.Worker.Sanitize.{normalize_seed_text, sanitize_seed_candidate}
use s2afl.Worker.Extract.{Value, extract_seed_from_blob}
use s2afl.Worker.Limits.{SizeHints, oversize_message_lines, generic_repetition_seed}

pub record PlanPayload : Type 0 where
  pub allow_single_message : Bool
  pub preserve_prefix_messages : ℤ
  pub max_line_length : ℕ
  pub target_message_index : ℕ
  pub operators : List Text

-- What the worker and the task give to the function.
pub record Task : Type 0 where
  pub policy : ProtocolMutationPolicy
  pub templates : Templates
  pub loads : Text → Option Value
  pub plan : PlanPayload
  pub hints : SizeHints
  pub original_seed : Option Text

-- The reason of a rejection.
pub data Reason : Type 0 where
  empty_generated_seed : Reason
  seed_parse_failed : Reason
  seed_has_no_message_method : Reason
  unknown_seed_method : Text → Reason
  seed_unchanged : Reason
  malformed_seed_start : Reason
  prefix_not_preserved : Reason
  single_message_not_allowed : Reason
  missing_login_prefix : Reason
  oversize_line : Reason
  repetition_seed : Reason
  content_length_mismatch : Reason

pub data Verdict : Type 0 where
  accepted : Text → Verdict
  rejected : Reason → Verdict

-- [msg for msg_idx, msg in enumerate(messages) if test]
filter_at : (ℕ → Text → Bool) → ℕ → List Text → List Text
filter_at test index [] = []
filter_at test index (m ∷ messages) =
    let rest = filter_at test (suc index) messages in if test index m then m ∷ rest else rest

-- The first index for which the test fails is none.
unfoldable pub all_at : (ℕ → Text → Bool) → ℕ → List Text → Bool
all_at test index [] = true
all_at test index (m ∷ messages) = test index m && all_at test (suc index) messages

module _ (t : Task) where
  -- 0 if allow_single else max(0, int(…))
  unfoldable pub preserve_prefix : ℕ
  preserve_prefix =
      if t.plan.allow_single_message
      then 0
      else elim t.plan.preserve_prefix_messages [ pos n ↦ n | negsuc n ↦ 0 ]

  unfoldable pub original_messages : List Text
  unfolding split_by_policy normalize_seed_text
  original_messages = elim t.original_seed [
    | none ↦ []
    | some original ↦ split_by_policy t.policy (normalize_seed_text original)
  ]

  unfoldable pub is_unchanged : Text → Bool
  unfolding normalize_seed_text text_eq
  is_unchanged normalized = elim t.original_seed [
    | none ↦ false
    | some original ↦ text_eq normalized (normalize_seed_text original)
  ]

  -- A message that can be sent, or that belongs to the body of one before.
  unfoldable pub starts_well : List Text → ℕ → Text → Bool
  unfolding message_looks_sendable region_without_start_allowed
  starts_well messages index m =
      message_looks_sendable t.templates m || region_without_start_allowed t.policy messages index

  unfoldable pub loses_prefix : List Text → Bool
  unfolding preserve_prefix original_messages texts_eq
  loses_prefix messages =
      is_some t.original_seed
      && not (preserve_prefix == 0)
      && (ltb (length messages) preserve_prefix
          || ltb (length original_messages) preserve_prefix
          || not
              (texts_eq (take preserve_prefix messages) (take preserve_prefix original_messages)))

  -- The methods of the original that are not empty.
  unfoldable pub original_methods : List Text
  unfolding original_messages message_method
  original_methods = filter (λ m. not (length m == 0)) (map message_method original_messages)

  unfoldable pub lacks_login : List Text → Bool
  unfolding has_required_prefix_chain original_methods member
  lacks_login methods =
      not t.plan.allow_single_message
      && not (length t.policy.required_prefix_chain == 0)
      && any (λ m. not (member m t.policy.prefix_optional_methods)) methods
      && not (has_required_prefix_chain t.policy.required_prefix_chain methods)
      && (length original_methods == 0
          || has_required_prefix_chain t.policy.required_prefix_chain original_methods)

  -- int(plan_payload.get("max_line_length") or 4096)
  unfoldable pub line_limit : ℕ
  line_limit = if t.plan.max_line_length == 0 then 4096 else t.plan.max_line_length

  -- The tests from `seed-unchanged` on.
  unfoldable pub refusal : Text → List Text → List Text → Option Reason
  unfolding is_unchanged starts_well loses_prefix lacks_login oversize_message_lines
      original_messages generic_repetition_seed content_length_consistent all_at line_limit
  refusal normalized messages methods =
      if is_unchanged normalized
      then some seed_unchanged
      else if not (all_at (starts_well messages) 0 messages)
      then some malformed_seed_start
      else if loses_prefix messages
      then some prefix_not_preserved
      else if not t.plan.allow_single_message && ltb (length messages) 2
      then some single_message_not_allowed
      else if lacks_login methods
      then some missing_login_prefix
      else if oversize_message_lines messages line_limit original_messages
          t.plan.target_message_index
      then some oversize_line
      else if generic_repetition_seed normalized t.plan.operators t.hints
      then some repetition_seed
      else if t.policy.content_length_validation
          && not (content_length_consistent t.policy messages)
      then some content_length_mismatch
      else none

  conclude : Text → List Text → Verdict
  unfolding refusal split_by_policy
  conclude normalized methods =
      elim (refusal normalized (split_by_policy t.policy normalized) methods) [
        | none ↦ accepted normalized
        | some reason ↦ rejected reason
      ]

  -- The messages with a method that is known, when another is not.
  known_only : List Text → Text
  unfolding filter_at is_known message_method region_without_start_allowed
  known_only messages = join (
      filter_at
        (λ index m.
          is_known t.templates (message_method m)
          || region_without_start_allowed t.policy messages index)
        0 messages)

  known_methods : List Text → List Text
  unfolding filter_at message_method line_body_region_allowed
  known_methods messages = map message_method (
      filter_at
        (λ index m.
          not (length (message_method m) == 0)
          && not (line_body_region_allowed t.policy messages index))
        0 messages)

  -- The tests on the methods, where templates are known.
  check_methods : Text → List Text → List Text → Verdict
  unfolding is_known conclude known_only known_methods split_by_policy
  check_methods normalized messages methods =
      let known = filter (is_known t.templates) methods in
      let filtered = known_only messages in
      elim (if length t.templates == 0
        then []
        else filter (λ m. not (is_known t.templates m)) methods) [
          | [] ↦ conclude normalized methods
          | m ∷ unknown ↦
              if length known == 0
              then rejected (unknown_seed_method m)
              else conclude filtered (known_methods (split_by_policy t.policy filtered))
        ]

  sendable_methods : List Text → List Text
  unfolding filter_at message_looks_sendable region_without_start_allowed message_method
  sendable_methods messages = map message_method (
      filter_at
        (λ index m.
          message_looks_sendable t.templates m
          && not (region_without_start_allowed t.policy messages index))
        0 messages)

  check_messages : Text → Verdict
  unfolding check_methods sendable_methods split_by_policy
  check_messages normalized =
      let messages = split_by_policy t.policy normalized in
      let methods = sendable_methods messages in
      if length messages == 0
      then rejected seed_parse_failed
      else if length methods == 0
      then rejected seed_has_no_message_method
      else check_methods normalized messages methods

  -- The seed of the sanitised candidate, unless it is empty.
  sanitized : Text → Text
  unfolding sanitize_seed_candidate
  sanitized normalized = elim (sanitize_seed_candidate t.policy t.templates normalized).0 [
    | some (c ∷ s) ↦ c ∷ s
    | _ ↦ normalized
  ]

  extracted : Text → Text
  unfolding extract_seed_from_blob
  extracted candidate = elim (extract_seed_from_blob t.loads candidate) [
    | some (c ∷ s) ↦ c ∷ s
    | _ ↦ candidate
  ]

  check_text : Text → Verdict
  unfolding check_messages sanitized extracted normalize_seed_text is_space
  check_text candidate =
      let normalized = normalize_seed_text (extracted candidate) in
      if all is_space candidate
      then rejected empty_generated_seed
      else if length normalized == 0
      then rejected empty_generated_seed
      else check_messages (sanitized normalized)

  -- _validate_candidate_seed
  unfoldable pub validate_candidate_seed : Option Text → Verdict
  unfolding check_text
  validate_candidate_seed none = rejected empty_generated_seed
  validate_candidate_seed (some candidate) = check_text candidate
