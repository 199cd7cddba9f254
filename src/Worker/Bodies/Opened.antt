-- ===== src/Worker/Bodies/Opened.antt =====
-- `_line_body_region_allowed` as a relation on the messages before.
use s2afl.Prelude.{
  ℕ, Bool, true, false, not, ◌||◌, List, [], ◌∷◌, Text, ◌≡◌, refl, ◌↔◌, ◌⊎◌, inl, inr, ◌<◌, All,
  Bool-cases, arith, take, length, ◌==◌, sym, ◌∙◌, get_elem?-some,
}
use s2afl.Text.{strip, first_line}
use s2afl.Policy.{ProtocolMutationPolicy}
use s2afl.Worker.Bodies.{opens_body, ends_body, in_body_behind, line_body_region_allowed}

-- One of the messages opens a body, and none of those behind it ends one.
pub data HasOpened (policy : ProtocolMutationPolicy) : List Text → Type 0 where
  here :
      (opener : Text) (body : List Text)
      → opens_body policy opener ≡ true
      → All (λ m. ends_body policy m ≡ false) body
      → HasOpened policy (opener ∷ body)
  there :
      (m : Text) (messages : List Text)
      → HasOpened policy messages
      → HasOpened policy (m ∷ messages)

module _ (policy : ProtocolMutationPolicy) where
  in_body_behind-open :
      (ms : List Text)
      → All (λ m. ends_body policy m ≡ false) ms
      → in_body_behind policy true ms ≡ true
  unfolding in_body_behind
  in_body_behind-open [] h = refl
  in_body_behind-open (m ∷ ms) h = ground (arith, in_body_behind-open ms h.1, h.0)

  in_body_behind_complete :
      (ms : List Text) (b : Bool) → HasOpened policy ms → in_body_behind policy b ms ≡ true
  unfolding in_body_behind
  in_body_behind_complete [] b h = elim h [ ]
  in_body_behind_complete (m ∷ ms) b (here _ _ o h) = rw o (in_body_behind-open ms h)
  in_body_behind_complete (m ∷ ms) b (there _ _ h) = in_body_behind_complete ms _ h

  in_body_behind_sound :
      (ms : List Text) (b : Bool)
      → in_body_behind policy b ms ≡ true
      → (b ≡ true) × All (λ m. ends_body policy m ≡ false) ms ⊎ HasOpened policy ms
  unfolding in_body_behind
  in_body_behind_sound [] b h = inl (h, tt)
  in_body_behind_sound (m ∷ ms) b h = elim (in_body_behind_sound ms _ h) [
    | inr found ↦ inr (there m ms found)
    | inl started ↦ elim (Bool-cases (opens_body policy m)) [
      | inl o ↦ inr (here m ms o started.1)
      | inr o ↦
          let both : (b ≡ true) × (ends_body policy m ≡ false) = ground (arith, o, started.0) in
          inl (both.0, (both.1, started.1))
    ]
  ]

-- The policy has methods with a body and markers that end it.
abbrev pub HasBodies : ProtocolMutationPolicy → Type 0
HasBodies policy = (0 < length policy.line_body_methods) × (0 < length policy.line_body_end_markers)

three_cases : (n : ℕ) (b : Bool) → (n == 0 || b || not (n == 0)) ≡ true
three_cases n b = ground arith

line_body_region_allowed_eq :
    (policy : ProtocolMutationPolicy) (messages : List Text) (index : ℕ)
    → HasBodies policy
    → index < length messages
    → line_body_region_allowed policy messages index
      ≡ in_body_behind policy false (take index messages)
unfolding line_body_region_allowed
line_body_region_allowed_eq policy messages index bodies bound =
    let found = get_elem?-some index messages bound in
    let methods : (length policy.line_body_methods == 0) ≡ false = ground (arith, bodies.0) in
    let markers : (length policy.line_body_end_markers == 0) ≡ false = ground (arith, bodies.1) in
    elim (Bool-cases (in_body_behind policy false (take index messages))) [
      | inl o ↦
          rw (methods, markers, o, found.1)
            (three_cases (length (strip (first_line found.0))) (ends_body policy found.0))
      | inr o ↦ rw (methods, markers, o)
    ]

-- Under a policy with methods that have a body and markers that end it,
-- `_line_body_region_allowed` holds for an index within the messages exactly when one of the
-- messages before opens a body and none behind that one ends it.
pub line_body_region_allowed_iff :
    (policy : ProtocolMutationPolicy) (messages : List Text) (index : ℕ)
    → HasBodies policy
    → index < length messages
    → (line_body_region_allowed policy messages index ≡ true)
      ↔ HasOpened policy (take index messages)
line_body_region_allowed_iff policy messages index bodies bound =
    let same = line_body_region_allowed_eq policy messages index bodies bound in
    (
      (λ h. elim (in_body_behind_sound policy (take index messages) false (sym same ∙ h)) [
        | inl started ↦ absurd (cc started.0)
        | inr found ↦ found
      ]),
      (λ found. same ∙ in_body_behind_complete policy (take index messages) false found),
    )
