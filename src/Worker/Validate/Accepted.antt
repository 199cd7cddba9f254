-- ===== src/Worker/Validate/Accepted.antt =====
-- What `_validate_candidate_seed` promises of the seed that it returns.
use s2afl.Prelude.{
  ◌≢◌, ℕ, suc, ◌≤◌, true, false, not, ◌&&◌, Option, none, some, List, [], ◌∷◌, ◌≡◌, refl, ◌⊎◌, inl,
  inr, Text, text_eq_refl, ltb, ◌==◌, if◌then◌else◌, length, take, Bool-cases, Option-cases, arith,
  &&-elim, ||-elim, List-cases, filter,
}
use s2afl.Seed.{split_by_policy}
use s2afl.Executor.Prefix.{texts_eq, texts_eq_sound}
use s2afl.Worker.Bodies.{region_without_start_allowed, content_length_consistent}
use s2afl.Worker.Clean.{message_looks_sendable, is_known}
use s2afl.Worker.Sanitize.{normalize_seed_text}
use s2afl.Worker.Limits.{oversize_message_lines}
use s2afl.Worker.Validate.{
  Task, accepted, preserve_prefix, original_messages, is_unchanged, starts_well, loses_prefix,
  line_limit, refusal, all_at, conclude, check_methods, check_messages, check_text,
  validate_candidate_seed, known_only, known_methods, sendable_methods, sanitized, extracted,
}

-- Each message, with its index, has the property.
abbrev pub AllAt : (ℕ → Text → Type 0) → ℕ → List Text → Type 0
AllAt P index [] = Unit
AllAt P index (m ∷ messages) = P index m × AllAt P (suc index) messages

-- The messages of a seed that passed the tests.
pub record IsAccepted (t : Task) (seed : Text) (messages : List Text) : Type 0 where
  pub changed :
      (t.original_seed ≡ none)
      ⊎ ((original : Text) × (t.original_seed ≡ some original)
          × (seed ≢ normalize_seed_text original))
  pub starts :
      AllAt
        (λ index m.
          (message_looks_sendable t.templates m ≡ true)
          ⊎ (region_without_start_allowed t.policy messages index ≡ true))
        0
        messages
  pub keeps :
      (t.original_seed ≡ none)
      ⊎ ((preserve_prefix t ≤ length messages)
          × (take (preserve_prefix t) messages ≡ take (preserve_prefix t) (original_messages t)))
  pub several : (t.plan.allow_single_message ≡ true) ⊎ (2 ≤ length messages)
  pub fits :
      oversize_message_lines messages
        (line_limit t)
        (original_messages t)
        t.plan.target_message_index
      ≡ false
  pub declares :
      (t.policy.content_length_validation ≡ false)
      ⊎ (content_length_consistent t.policy messages ≡ true)

module _ (t : Task) where
  starts_well_sound :
      (messages : List Text) (index : ℕ) (ms : List Text)
      → all_at (starts_well t messages) index ms ≡ true
      → AllAt
          (λ i m.
            (message_looks_sendable t.templates m ≡ true)
            ⊎ (region_without_start_allowed t.policy messages i ≡ true))
          index
          ms
  unfolding all_at starts_well
  starts_well_sound messages index [] h = tt
  starts_well_sound messages index (m ∷ ms) h =
      let (first, rest) =
        &&-elim (starts_well t messages index m) (all_at (starts_well t messages) (suc index) ms)
          h in
      (
        ||-elim (message_looks_sendable t.templates m)
            (region_without_start_allowed t.policy messages index) first,
        starts_well_sound messages (suc index) ms rest,
      )

  abbrev Passes : Text → List Text → Type 0
  Passes normalized messages =
      (is_unchanged t normalized ≡ false)
      × (all_at (starts_well t messages) 0 messages ≡ true)
      × (loses_prefix t messages ≡ false)
      × ((not t.plan.allow_single_message && ltb (length messages) 2) ≡ false)
      × (oversize_message_lines messages (line_limit t) (original_messages t)
            t.plan.target_message_index
          ≡ false)
      × ((t.policy.content_length_validation && not (content_length_consistent t.policy messages))
          ≡ false)

  refusal-none :
      (normalized : Text) (messages methods : List Text)
      → refusal t normalized messages methods ≡ none
      → Passes normalized messages
  unfolding refusal
  refusal-none normalized messages methods h =
      (ground arith, ground arith, ground arith, ground arith, ground arith, ground arith)

  is_unchanged-false :
      (seed : Text)
      → is_unchanged t seed ≡ false
      → (t.original_seed ≡ none)
        ⊎ ((original : Text) × (t.original_seed ≡ some original)
            × (seed ≢ normalize_seed_text original))
  unfolding is_unchanged
  is_unchanged-false seed h = elim (Option-cases t.original_seed) [
    | inl e ↦ inl e
    | inr (original, e) ↦ inr (
      original,
      e,
      (λ same. let refl_text = text_eq_refl seed in absurd (ground (arith, same, refl_text, e))),
    )
  ]

  loses_prefix-false :
      (messages : List Text)
      → loses_prefix t messages ≡ false
      → (t.original_seed ≡ none)
        ⊎ ((preserve_prefix t ≤ length messages)
            × (take (preserve_prefix t) messages ≡ take (preserve_prefix t) (original_messages t)))
  unfolding loses_prefix
  loses_prefix-false messages h = elim (Option-cases t.original_seed) [
    | inl e ↦ inl e
    | inr (original, e) ↦ elim (Bool-cases (preserve_prefix t == 0)) [
      | inl z ↦
          let none_kept : preserve_prefix t ≡ 0 = ground (arith, z) in
          inr (omega (arith, none_kept), rw none_kept refl)
      | inr n ↦
          let same : texts_eq (take (preserve_prefix t) messages)
                (take (preserve_prefix t) (original_messages t))
              ≡ true =
            ground (arith, e, n) in
          inr (ground (arith, e, n), texts_eq_sound _ _ same)
    ]
  ]

  Passes-IsAccepted :
      (seed : Text) (messages : List Text) → Passes seed messages → IsAccepted t seed messages
  Passes-IsAccepted seed messages (u, st, lo, se, fi, de) = record {
    changed = is_unchanged-false seed u;
    starts = starts_well_sound messages 0 messages st;
    keeps = loses_prefix-false messages lo;
    several = elim (Bool-cases t.plan.allow_single_message) [
      | inl e ↦ inl e
      | inr e ↦ inr (ground (arith, e))
    ];
    fits = fi;
    declares = elim (Bool-cases t.policy.content_length_validation) [
      | inl e ↦ inr (ground (arith, e))
      | inr e ↦ inl e
    ];
  }

  conclude-accepted :
      (normalized seed : Text) (methods : List Text)
      → conclude t normalized methods ≡ accepted seed
      → IsAccepted t seed (split_by_policy t.policy seed)
  unfolding conclude
  conclude-accepted normalized seed methods h =
      elim (Option-cases (refusal t normalized (split_by_policy t.policy normalized) methods)) [
        | inl e ↦
            let same : normalized ≡ seed = ground (arith, e) in
            rw (← same) (
              Passes-IsAccepted normalized (split_by_policy t.policy normalized)
                (refusal-none normalized (split_by_policy t.policy normalized) methods e))
        | inr found ↦ absurd (ground (arith, found.1))
      ]

  check_methods-accepted :
      (normalized seed : Text) (messages methods : List Text)
      → check_methods t normalized messages methods ≡ accepted seed
      → IsAccepted t seed (split_by_policy t.policy seed)
  unfolding check_methods
  check_methods-accepted normalized seed messages methods h =
      elim (List-cases (
        if length t.templates == 0
        then []
        else filter (λ m. not (is_known t.templates m)) methods)) [
          | inl e ↦ conclude-accepted normalized seed methods (ground (arith, e))
          | inr (m, unknown, e) ↦
              elim (Bool-cases (length (filter (is_known t.templates) methods) == 0)) [
                | inl k ↦ absurd (ground (arith, e, k))
                | inr k ↦
                    conclude-accepted (known_only t messages) seed
                      (known_methods t (split_by_policy t.policy (known_only t messages)))
                      (ground (arith, e, k))
              ]
        ]

  check_messages-accepted :
      (normalized seed : Text)
      → check_messages t normalized ≡ accepted seed
      → IsAccepted t seed (split_by_policy t.policy seed)
  unfolding check_messages
  check_messages-accepted normalized seed h =
      let messages = split_by_policy t.policy normalized in
      check_methods-accepted normalized seed messages (sendable_methods t messages) (ground arith)

  check_text-accepted :
      (candidate seed : Text)
      → check_text t candidate ≡ accepted seed
      → IsAccepted t seed (split_by_policy t.policy seed)
  unfolding check_text
  check_text-accepted candidate seed h =
      let normalized = normalize_seed_text (extracted t candidate) in
      check_messages-accepted (sanitized t normalized) seed (ground arith)

-- A seed that `_validate_candidate_seed` accepts is not the normalised original, each of its
-- messages can be sent or belongs to the body of one before, it keeps the messages of the original
-- that the plan preserves, has two messages unless the plan allows one, has no line that is too
-- long for the limit and the original, and the lengths that it declares are consistent where the
-- policy asks for that.
pub validate_candidate_seed-IsAccepted :
    (t : Task) (candidate : Option Text) (seed : Text)
    → validate_candidate_seed t candidate ≡ accepted seed
    → IsAccepted t seed (split_by_policy t.policy seed)
unfolding validate_candidate_seed
validate_candidate_seed-IsAccepted t none seed h = absurd (cc h)
validate_candidate_seed-IsAccepted t (some candidate) seed h =
    check_text-accepted t candidate seed h
