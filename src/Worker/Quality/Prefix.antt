-- ===== src/Worker/Quality/Prefix.antt =====
-- The clean prefix of a seed of lines.
use s2afl.Prelude.{
  ℕ, suc, none, some, List, [], ◌∷◌, ◌++◌, ◌≡◌, refl, sym, ap, ◌∙◌, Text, length, join, arith,
  Bool-cases, Option-cases, inl, inr, ◌⊎◌, All, ◌==◌, length-append,
}
use s2afl.Policy.{ProtocolMutationPolicy, line_command}
use s2afl.Seed.{split_by_policy}
use s2afl.Seed.Lines.Prefix.{split_crlf_messages-prefix, split_by_policy-lines}
use s2afl.Knowledge.{Templates}
use s2afl.Worker.Clean.{message_flaw}
use s2afl.Worker.Bodies.{region_without_start_allowed}
use s2afl.Worker.Quality.{
  ok, quality_from, quality_of, context_seed_quality, clean_prefix, clean_context_prefix,
}

-- Either all messages are clean, or the prefix ends before one that is not.
module _ (policy : ProtocolMutationPolicy) (templates : Templates) where
  abbrev IsClean : Text → Type 0
  IsClean m = message_flaw templates policy.message_style m ≡ none

  clean_prefix-IsClean :
      (messages : List Text) → All IsClean (clean_prefix policy templates messages)
  unfolding clean_prefix
  clean_prefix-IsClean [] = tt
  clean_prefix-IsClean (m ∷ messages) =
      elim (Option-cases (message_flaw templates policy.message_style m)) [
        | inl e ↦ rw (clean_prefix, e) (e, clean_prefix-IsClean messages)
        | inr found ↦ rw (clean_prefix, found.1) tt
      ]

  clean_prefix-split :
      (messages : List Text)
      → (clean_prefix policy templates messages ≡ messages)
        ⊎ ((bad : Text) × (rest : List Text) × (messages
              ≡ clean_prefix policy templates messages ++ bad ∷ rest))
  unfolding clean_prefix
  clean_prefix-split [] = inl refl
  clean_prefix-split (m ∷ messages) =
      elim (Option-cases (message_flaw templates policy.message_style m)) [
        | inl e ↦ elim (clean_prefix-split messages) [
          | inl all ↦ inl (rw (clean_prefix, e) (ap (λ (l : List Text). m ∷ l) all))
          | inr (bad, rest, cut) ↦
              inr (bad, rest, (rw (clean_prefix, e) (ap (λ (l : List Text). m ∷ l) cut)))
        ]
        | inr found ↦
            let nothing : clean_prefix policy templates (m ∷ messages) ≡ [] =
              rw (clean_prefix, found.1) refl in
            inr (m, messages, (rw nothing refl))
      ]

  quality_from-clean :
      (messages : List Text) (index : ℕ) (rest : List Text)
      → All IsClean rest
      → quality_from policy templates messages index rest ≡ ok (length messages)
  unfolding quality_from
  quality_from-clean messages index [] h = refl
  quality_from-clean messages index (m ∷ rest) (hm, h) =
      let more = quality_from-clean messages (suc index) rest h in
      elim (Bool-cases (region_without_start_allowed policy messages index)) [
        | inl e ↦ rw e more
        | inr e ↦ rw (e, hm) more
      ]

  quality_of-clean :
      (messages : List Text)
      → All IsClean messages
      → (length messages ≡ 0 → ⊥)
      → quality_of policy templates messages ≡ ok (length messages)
  unfolding quality_of
  quality_of-clean [] h n = absurd (n refl)
  quality_of-clean (m ∷ messages) h n = quality_from-clean (m ∷ messages) 0 (m ∷ messages) h

  -- Fewer messages than all are split again as they were.
  split-clean :
      (seed : Text)
      → policy.message_style ≡ line_command
      → ((length (clean_prefix policy templates (split_by_policy policy seed))
            ≡ length (split_by_policy policy seed))
          → ⊥)
      → split_by_policy policy (join (clean_prefix policy templates (split_by_policy policy seed)))
        ≡ clean_prefix policy templates (split_by_policy policy seed)
  split-clean seed style fewer = elim (clean_prefix-split (split_by_policy policy seed)) [
    | inl all ↦ absurd (fewer (ap (λ (l : List Text). length l) all))
    | inr (bad, rest, cut) ↦
        let clean = clean_prefix policy templates (split_by_policy policy seed) in
        split_by_policy-lines policy (join clean) style
        ∙ split_crlf_messages-prefix seed clean bad rest
            (sym (split_by_policy-lines policy seed style) ∙ cut)
  ]

  All-IsClean :
      (messages : List Text)
      → length (clean_prefix policy templates messages) ≡ length messages
      → All IsClean messages
  All-IsClean messages e = elim (clean_prefix-split messages) [
    | inl all ↦ rw (← all) (clean_prefix-IsClean messages)
    | inr (bad, rest, cut) ↦
        let size =
          ap (λ (l : List Text). length l) cut
          ∙ length-append (clean_prefix policy templates messages) (bad ∷ rest) in
        absurd (omega (arith, size, e))
  ]

  abbrev prefix_of : Text → List Text
  prefix_of seed = clean_prefix policy templates (split_by_policy policy seed)

  quality-of_split :
      (clean : Text) (messages : List Text)
      → split_by_policy policy clean ≡ messages
      → All IsClean messages
      → (length messages ≡ 0 → ⊥)
      → context_seed_quality policy templates clean ≡ ok (length messages)
  unfolding context_seed_quality
  quality-of_split clean messages e h n = rw e (quality_of-clean messages h n)

  clean_context_prefix-cases :
      (seed clean : Text)
      → (clean_context_prefix policy templates seed).0 ≡ some clean
      → ((clean_context_prefix policy templates seed).1.message_count_after
          ≡ length (prefix_of seed))
        × (length (prefix_of seed) ≡ 0 → ⊥)
        × ((length (prefix_of seed) ≡ length (split_by_policy policy seed)) × (clean ≡ seed)
            ⊎ (length (prefix_of seed) ≡ length (split_by_policy policy seed) → ⊥)
              × (clean ≡ join (prefix_of seed)))
  unfolding clean_context_prefix
  clean_context_prefix-cases seed clean h =
      let size = length (prefix_of seed) in
      let all = length (split_by_policy policy seed) in
      elim (Bool-cases (size == 0)) [
        | inl e ↦ absurd (ground (arith, e))
        | inr some_kept ↦ elim (Bool-cases (size == all)) [
          | inl e ↦ (
            ground (arith, some_kept, e),
            ground (arith, some_kept),
            inl (ground (arith, e), ground (arith, some_kept, e)),
          )
          | inr e ↦ (
            ground (arith, some_kept, e),
            ground (arith, some_kept),
            inr (ground (arith, e), ground (arith, some_kept, e)),
          )
        ]
      ]

-- For a protocol of lines, a seed that `_clean_context_prefix` returns is of good quality for
-- `_context_seed_quality`, with as many messages as the first says it kept.
pub clean_context_prefix-ok :
    (policy : ProtocolMutationPolicy) (templates : Templates) (seed clean : Text)
    → policy.message_style ≡ line_command
    → (clean_context_prefix policy templates seed).0 ≡ some clean
    → context_seed_quality policy templates clean
      ≡ ok (clean_context_prefix policy templates seed).1.message_count_after
clean_context_prefix-ok policy templates seed clean style h =
    let (count, kept, cases) = clean_context_prefix-cases policy templates seed clean h in
    let is_clean = clean_prefix-IsClean policy templates (split_by_policy policy seed) in
    elim cases [
      | inl (whole, same) ↦
          rw (count, whole, same)
            (quality-of_split policy templates seed (split_by_policy policy seed) refl
              (All-IsClean policy templates (split_by_policy policy seed) whole)
              (λ e. kept (whole ∙ e)))
      | inr (fewer, same) ↦
          rw (count, same)
            (quality-of_split policy templates (join (prefix_of policy templates seed))
              (prefix_of policy templates seed) (split-clean policy templates seed style fewer)
              is_clean kept)
    ]
