-- ===== src/Worker/Quality.antt =====
-- `_context_seed_quality` and `_clean_context_prefix`.
pub mod Prefix
use s2afl.Prelude.{
  ℕ, zero, suc, ◌+◌, Bool, Option, none, some, List, [], ◌∷◌, Text, ◌==◌, if◌then◌else◌, length,
  join, is_some,
}
use s2afl.Policy.{ProtocolMutationPolicy}
use s2afl.Seed.{split_by_policy, message_method}
use s2afl.Knowledge.{Templates}
use s2afl.Worker.Clean.{Flaw, message_flaw}
use s2afl.Worker.Bodies.{region_without_start_allowed}

-- The dict that `_context_seed_quality` returns.
pub data Quality : Type 0 where
  parse_failed : Quality
  flawed : (reason : Flaw) (bad_message_index message_count : ℕ) (method : Text) → Quality
  ok : (message_count : ℕ) → Quality

-- The loop from `index` on, where `rest` is messages[index:].
unfoldable pub quality_from :
    ProtocolMutationPolicy → Templates → List Text → ℕ → List Text → Quality
unfolding message_flaw region_without_start_allowed message_method
quality_from policy templates messages index [] = ok (length messages)
quality_from policy templates messages index (message ∷ rest) =
    let more = quality_from policy templates messages (suc index) rest in
    if region_without_start_allowed policy messages index
    then more
    else elim (message_flaw templates policy.message_style message) [
      | none ↦ more
      | some reason ↦ flawed reason index (length messages) (message_method message)
    ]

quality_of : ProtocolMutationPolicy → Templates → List Text → Quality
unfolding quality_from
quality_of policy templates [] = parse_failed
quality_of policy templates (m ∷ messages) =
    quality_from policy templates (m ∷ messages) 0 (m ∷ messages)

-- _context_seed_quality
unfoldable pub context_seed_quality : ProtocolMutationPolicy → Templates → Text → Quality
unfolding quality_of split_by_policy
context_seed_quality policy templates seed_text =
    quality_of policy templates (split_by_policy policy seed_text)

-- The messages before the first that is not clean.
unfoldable pub clean_prefix : ProtocolMutationPolicy → Templates → List Text → List Text
unfolding message_flaw
clean_prefix policy templates [] = []
clean_prefix policy templates (message ∷ messages) =
    elim (message_flaw templates policy.message_style message) [
      | some reason ↦ []
      | none ↦ message ∷ clean_prefix policy templates messages
    ]

pub record PrefixMeta : Type 0 where
  pub message_count_before : ℕ
  pub message_count_after : ℕ

-- _clean_context_prefix; `_render_messages` is `join`.
unfoldable pub clean_context_prefix :
    ProtocolMutationPolicy → Templates → Text → Option Text × PrefixMeta
unfolding clean_prefix split_by_policy
clean_context_prefix policy templates seed_text =
    let messages = split_by_policy policy seed_text in
    let clean = clean_prefix policy templates messages in
    if length clean == 0
    then (none, record { message_count_before = length messages; message_count_after = 0 })
    else if length clean == length messages
    then (
      some seed_text,
      record { message_count_before = length messages; message_count_after = length clean },
    )
    else (
      some (join clean),
      record { message_count_before = length messages; message_count_after = length clean },
    )
