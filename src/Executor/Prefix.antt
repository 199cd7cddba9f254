-- ===== src/Executor/Prefix.antt =====
-- `_filter_success_prefix_candidates`: the candidates that keep the messages that succeeded.
use mathlib.Core.Path.{subst}
use s2afl.Prelude.{
  ℕ, Bool, true, false, not, ◌&&◌, ◌||◌, List, [], ◌∷◌, Text, text_eq, text_eq_refl, text_eq_sound,
  ◌≡◌, refl, sym, ap, ◌∙◌, ◌≤◌, ◌↔◌, arith, if◌then◌else◌, Bool-cases, inl, inr, length, take, ltb,
  ◌==◌, filter, filter-In, In-filter, In, ℤ, pos, negsuc, Option, none, some,
}
use s2afl.Seed.{split_seed_messages}

pub record GeneratedSeedCandidate : Type 0 where
  pub seed_text : Text
  pub summary : Text
  pub mutated_fields : List Text

-- list == list
unfoldable pub texts_eq : List Text → List Text → Bool
unfolding text_eq
texts_eq [] [] = true
texts_eq [] (t ∷ ts) = false
texts_eq (s ∷ ss) [] = false
texts_eq (s ∷ ss) (t ∷ ts) = text_eq s t && texts_eq ss ts

-- max(0, int(plan_payload.get("required_success_prefix_messages") or 0)), or 0 where that raises.
abbrev pub required_prefix : Option ℤ → ℕ
required_prefix none = 0
required_prefix (some (pos n)) = n
required_prefix (some (negsuc n)) = 0

-- The tests of the loop, for one candidate.
keeps_prefix : Text → ℕ → List Text → GeneratedSeedCandidate → Bool
unfolding texts_eq split_seed_messages
keeps_prefix protocol n original candidate =
    let messages = split_seed_messages protocol candidate.seed_text in
    not (ltb (length messages) n) && texts_eq (take n messages) (take n original)

-- _filter_success_prefix_candidates
unfoldable pub filter_success_prefix_candidates :
    Text → Text → Option ℤ → List GeneratedSeedCandidate → List GeneratedSeedCandidate
unfolding keeps_prefix
filter_success_prefix_candidates protocol seed_text required candidates =
    let n = required_prefix required in
    let original = split_seed_messages protocol seed_text in
    if n == 0 || length candidates == 0
    then candidates
    else if ltb (length original) n
    then []
    else filter (keeps_prefix protocol n original) candidates

pub texts_eq_sound : (ss ts : List Text) → texts_eq ss ts ≡ true → ss ≡ ts
unfolding texts_eq
texts_eq_sound [] [] h = refl
texts_eq_sound [] (t ∷ ts) h = cc
texts_eq_sound (s ∷ ss) [] h = cc
texts_eq_sound (s ∷ ss) (t ∷ ts) h =
    let a : text_eq s t ≡ true = ground (arith, h) in
    let b = texts_eq_sound ss ts (ground (arith, h)) in
    ap (λ (x : Text). x ∷ ss) (text_eq_sound s t a) ∙ ap (λ (l : List Text). t ∷ l) b

texts_eq_refl : (ss : List Text) → texts_eq ss ss ≡ true
unfolding texts_eq
texts_eq_refl [] = refl
texts_eq_refl (s ∷ ss) = rw (text_eq_refl s) (texts_eq_refl ss)

-- What the plan asks of a candidate: the seed has the required messages, and the candidate begins with
-- the same.
abbrev pub KeepsPrefix : Text → Text → ℕ → GeneratedSeedCandidate → Type 0
KeepsPrefix protocol seed_text n candidate =
    (n ≤ length (split_seed_messages protocol seed_text))
    × (n ≤ length (split_seed_messages protocol candidate.seed_text))
    × (take n (split_seed_messages protocol candidate.seed_text)
        ≡ take n (split_seed_messages protocol seed_text))

keeps_prefix_iff :
    (protocol : Text) (n : ℕ) (original : List Text) (candidate : GeneratedSeedCandidate)
    → (keeps_prefix protocol n original candidate ≡ true) ↔ (
        (n ≤ length (split_seed_messages protocol candidate.seed_text))
        × (take n (split_seed_messages protocol candidate.seed_text) ≡ take n original))
unfolding keeps_prefix
keeps_prefix_iff protocol n original candidate =
    let messages = split_seed_messages protocol candidate.seed_text in
    (
      λ h. (
        ground (arith, h),
        texts_eq_sound (take n messages) (take n original) (ground (arith, h)),
      ),
      λ t.
          let same : texts_eq (take n messages) (take n original) ≡ true =
            rw t.1 (texts_eq_refl (take n original)) in
          let k = t.0 in ground (arith, same, k),
    )

-- A plan that requires nothing.
KeepsPrefix-zero :
    (protocol seed_text : Text) (n : ℕ) (candidate : GeneratedSeedCandidate)
    → n ≡ 0
    → KeepsPrefix protocol seed_text n candidate
KeepsPrefix-zero protocol seed_text n candidate e =
    subst (λ (k : ℕ). KeepsPrefix protocol seed_text k candidate) (sym e)
      (omega arith, omega arith, refl)

-- `_filter_success_prefix_candidates` returns exactly the candidates that keep the messages of the
-- seed that the plan requires; where the seed has fewer messages, it returns none.
pub filter_success_prefix_candidates_iff :
    (protocol seed_text : Text) (required : Option ℤ) (candidates : List GeneratedSeedCandidate)
    (candidate : GeneratedSeedCandidate)
    → In candidate (filter_success_prefix_candidates protocol seed_text required candidates) ↔ (
        In candidate candidates
        × KeepsPrefix protocol seed_text (required_prefix required) candidate)
unfolding filter_success_prefix_candidates
filter_success_prefix_candidates_iff protocol seed_text required [] candidate =
    let empty : filter_success_prefix_candidates protocol seed_text required [] ≡ [] =
      ground arith in
    (λ m. absurd (subst (In candidate) empty m), λ t. absurd t.0)
filter_success_prefix_candidates_iff protocol seed_text required (c ∷ cs) candidate =
    let n = required_prefix required in
    let original = split_seed_messages protocol seed_text in
    elim (Bool-cases (n == 0)) [
      | inl e ↦
          let zeroed : n ≡ 0 = ground (arith, e) in
          rw e (λ m. (m, KeepsPrefix-zero protocol seed_text n candidate zeroed), λ t. t.0)
      | inr e ↦
          let test : (n == 0 || length (c ∷ cs) == 0) ≡ false = ground (arith, e) in
          elim (Bool-cases (ltb (length original) n)) [
            | inl f ↦
                rw (test, f) (λ m. absurd m, λ t. absurd (let k = (t.1).0 in ground (arith, f, k)))
            | inr f ↦
                let enough : n ≤ length original = ground (arith, f) in
                rw (test, f)
                  (
                    λ m.
                        let found =
                          filter-In (keeps_prefix protocol n original) (c ∷ cs) candidate m in
                        let kept = (keeps_prefix_iff protocol n original candidate).0 found.1 in
                        (found.0, (enough, kept.0, kept.1)),
                    λ t.
                        In-filter (keeps_prefix protocol n original) (c ∷ cs) candidate t.0
                          ((keeps_prefix_iff protocol n original candidate).1 ((t.1).1, (t.1).2)),
                  )
          ]
    ]
