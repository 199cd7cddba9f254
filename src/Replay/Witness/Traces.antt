-- ===== src/Replay/Witness/Traces.antt =====
-- The steps that `_extract_success_prefix_witness` counts, by their answers.
use s2afl.Prelude.{
  ℕ, suc, ◌+◌, ◌≤◌, ◌<◌, true, false, Option, none, some, List, [], ◌∷◌, ◌≡◌, ◌≢◌, refl, sym, ap,
  ◌∙◌, ◌⊎◌, inl, inr, Text, length, Bool-cases, arith, ◌==◌, ℤ, pos, negsuc,
}
use s2afl.Text.{strip}
use s2afl.Replay.Witness.Prefix.{IsWitness, extract_success_prefix_witness-IsWitness}
use s2afl.Replay.Witness.{
  Step, PrefixWitness, or_text, is_zero, stops_at, count_step, is_failure, response_status_code,
  witness_loop, no_witness, extract_success_prefix_witness,
}

-- A step that is sent in its turn, measured without an error and answered.
pub record IsAnswered (messages : List Text) (index : ℕ) (step : Step) : Type 0 where
  pub in_turn : (step.step_index ≡ 0) ⊎ (step.step_index ≡ index)
  pub inside : index < length messages
  pub sent : strip (or_text step.send_error step.response_error) ≡ []
  pub captured : step.capture_returncode ≡ pos 0
  pub measured : step.has_capture_error ≡ false
  pub answered : strip step.response_preview ≢ []

-- The status code of a step's answer, if it has one.
abbrev pub status_of : Step → Option ℕ
status_of step = response_status_code (strip step.response_preview)

-- How many steps are answered without a failure from an index on, and the step that is answered with
-- a status code of 400 or more, if the trace comes to one before a step that is not answered.
pub data Trace (messages : List Text) : ℕ → List (Option Step) → ℕ → Option ℕ → Type 0 where
  ends : (index : ℕ) → Trace messages index [] 0 none
  no_dict : (index : ℕ) (steps : List (Option Step)) → Trace messages index (none ∷ steps) 0 none
  unanswered :
      (index : ℕ) (step : Step) (steps : List (Option Step))
      → (IsAnswered messages index step → ⊥)
      → Trace messages index (some step ∷ steps) 0 none
  fails :
      (index code : ℕ) (step : Step) (steps : List (Option Step))
      → IsAnswered messages index step
      → status_of step ≡ some code
      → 400 ≤ code
      → Trace messages index (some step ∷ steps) 0 (some index)
  succeeds :
      (index n : ℕ) (failure : Option ℕ) (step : Step) (steps : List (Option Step))
      → IsAnswered messages index step
      → (status_of step ≡ none) ⊎ ((code : ℕ) × ((status_of step ≡ some code) × (code < 400)))
      → Trace messages (suc index) steps n failure
      → Trace messages index (some step ∷ steps) (suc n) failure

is_zero_sound : (i : ℤ) → is_zero i ≡ true → i ≡ pos 0
unfolding is_zero
is_zero_sound (pos n) h = ap pos (ground arith)
is_zero_sound (negsuc n) h = absurd (cc h)

empty-Text : (t : Text) → (length t == 0) ≡ true → t ≡ []
empty-Text t h = ground arith

stops_at-IsAnswered :
    (messages : List Text) (step : Step) (index : ℕ)
    → stops_at step index index messages ≡ false
    → IsAnswered messages index step
unfolding stops_at
stops_at-IsAnswered messages step index h = record {
  in_turn = elim (Bool-cases (step.step_index == 0)) [
    | inl e ↦ inl (ground (arith, e))
    | inr e ↦ inr (ground (arith, e))
  ];
  inside = ground arith;
  sent = empty-Text (strip (or_text step.send_error step.response_error)) (ground arith);
  captured = is_zero_sound step.capture_returncode (ground arith);
  measured = ground arith;
  answered = λ e. ground (arith, e);
}

IsAnswered-stops_at :
    (messages : List Text) (step : Step) (index : ℕ)
    → IsAnswered messages index step
    → stops_at step index index messages ≡ false
unfolding stops_at is_zero
IsAnswered-stops_at messages step index a =
    let some_text : (length (strip step.response_preview) == 0) ≡ false =
      elim (Bool-cases (length (strip step.response_preview) == 0)) [
        | inl e ↦ absurd (a.answered (empty-Text (strip step.response_preview) e))
        | inr e ↦ e
      ] in
    elim a.in_turn [
      | inl e ↦ rw (e, a.sent, a.captured, a.measured) (ground (arith, some_text, a.inside))
      | inr e ↦ rw (a.sent, a.captured, a.measured) (ground (arith, e, some_text, a.inside))
    ]

is_failure-true :
    (o : Option ℕ) → is_failure o ≡ true → (code : ℕ) × ((o ≡ some code) × (400 ≤ code))
unfolding is_failure
is_failure-true none h = absurd (cc h)
is_failure-true (some code) h = (code, (refl, ground arith))

is_failure-false :
    (o : Option ℕ)
    → is_failure o ≡ false
    → (o ≡ none) ⊎ ((code : ℕ) × ((o ≡ some code) × (code < 400)))
unfolding is_failure
is_failure-false none h = inl refl
is_failure-false (some code) h = inr (code, (refl, ground arith))

-- What the loop adds to a witness whose messages all succeeded.
Added : List Text → ℕ → List (Option Step) → PrefixWitness → Type 0
Added messages index steps r =
    (n : ℕ) × ((failure : Option ℕ) × (Trace messages index steps n failure
        × (r.success_prefix_messages ≡ index + n)
        × (r.first_failure_status_step ≡ failure)))

module _ (messages : List Text) where
  witness_loop-Trace :
      (index : ℕ) (steps : List (Option Step)) (w : PrefixWitness)
      → w.replay_prefix_messages ≡ index
      → w.success_prefix_messages ≡ index
      → w.first_failure_status_step ≡ none
      → Added messages index steps (witness_loop messages index steps w)
  unfolding witness_loop Added
  witness_loop-Trace index [] w r s f = (0, (none, (ends index, omega (arith, s), f)))
  witness_loop-Trace index (none ∷ steps) w r s f =
      (0, (none, (no_dict index steps, omega (arith, s), f)))
  witness_loop-Trace index (some step ∷ steps) w r s f =
      elim (Bool-cases (stops_at step index w.replay_prefix_messages messages)) [
        | inl e ↦
            rw (witness_loop, e)
              (
                0,
                (
                  none,
                  (
                    unanswered index step steps (λ a.
                        let goes_on = IsAnswered-stops_at messages step index a in
                        let stops : stops_at step index index messages ≡ true =
                          sym (ap (λ (i : ℕ). stops_at step index i messages) r) ∙ e in
                        absurd (ground (arith, stops, goes_on))),
                    omega (arith, s),
                    f,
                  ),
                ),
              )
        | inr e ↦
            let answered =
              stops_at-IsAnswered messages step index
                (sym (ap (λ (i : ℕ). stops_at step index i messages) r) ∙ e) in
            elim (Bool-cases (is_failure (status_of step))) [
              | inl b ↦
                  let (code, (at, big)) = is_failure-true (status_of step) b in
                  rw (witness_loop, e, b)
                    (
                      0,
                      (
                        some index,
                        (
                          fails index code step steps answered at big,
                          omega (arith, s),
                          ap (λ (i : ℕ). some i) r,
                        ),
                      ),
                    )
              | inr g ↦
                  let next = count_step step messages w in
                  let (n, (failure, (trace, count, fail))) =
                    witness_loop-Trace (suc index) steps
                      (record next { success_prefix_messages = next.replay_prefix_messages })
                      (ap (λ (i : ℕ). suc i) r) (ap (λ (i : ℕ). suc i) r) f in
                  rw (witness_loop, e, g)
                    (
                      suc n,
                      (
                        failure,
                        (
                          succeeds index n failure step steps answered
                              (is_failure-false (status_of step) g) trace,
                          omega (arith, count),
                          fail,
                        ),
                      ),
                    )
            ]
      ]

-- Of a trace `_extract_success_prefix_witness` counts as successes exactly the leading steps that
-- are sent in turn, measured and answered without a status code of 400 or more, and the failure is
-- the step behind them if that is answered with such a code. It counts no more messages than the
-- seed and the trace have; all that were replayed are successes, or all but the last; there is a
-- method and a preview for each, and no more status codes than messages.
pub extract_success_prefix_witness-Trace :
    (steps : List (Option Step)) (messages : List Text)
    → Trace messages 0 steps
        (extract_success_prefix_witness steps messages).success_prefix_messages
        (extract_success_prefix_witness steps messages).first_failure_status_step
      × IsWitness messages (length steps) (extract_success_prefix_witness steps messages)
unfolding extract_success_prefix_witness Added
extract_success_prefix_witness-Trace steps messages =
    let (n, (failure, (trace, count, fail))) =
      witness_loop-Trace messages 0 steps no_witness refl refl refl in
    let size : (witness_loop messages 0 steps no_witness).success_prefix_messages ≡ n =
      omega (arith, count) in
    (rw (size, fail) trace, extract_success_prefix_witness-IsWitness steps messages)
