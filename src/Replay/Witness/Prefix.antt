-- ===== src/Replay/Witness/Prefix.antt =====
-- The prefixes of `_extract_success_prefix_witness`.
use s2afl.Prelude.{
  ℕ, suc, ◌+◌, ◌≤◌, false, Option, none, some, List, [], ◌∷◌, ◌≡◌, refl, ap, sym, Text, length,
  length-append, Bool-cases, inl, inr, arith,
}
use s2afl.Text.{strip}
use s2afl.Replay.Witness.{
  Step, PrefixWitness, stops_at, count_step, is_failure, response_status_code, witness_loop,
  code_list, no_witness, extract_success_prefix_witness,
}

-- A prefix that ends without a failure, or with the message that failed.
pub data Ends (w : PrefixWitness) : Type 0 where
  all_succeed :
      w.first_failure_status_step ≡ none
      → w.success_prefix_messages ≡ w.replay_prefix_messages
      → Ends w
  last_fails :
      w.first_failure_status_step ≡ some w.success_prefix_messages
      → w.replay_prefix_messages ≡ suc w.success_prefix_messages
      → Ends w

-- The prefixes lie within the messages and the steps, and the lists have an entry for each message.
pub record IsWitness (messages : List Text) (steps : ℕ) (w : PrefixWitness) : Type 0 where
  pub ends : Ends w
  pub within_messages : w.replay_prefix_messages ≤ length messages
  pub within_steps : w.replay_prefix_messages ≤ steps
  pub methods : length w.prefix_methods ≡ w.replay_prefix_messages
  pub previews : length w.prefix_response_previews ≡ w.replay_prefix_messages
  pub codes : length w.prefix_status_codes ≤ w.replay_prefix_messages

-- The invariant of the loop.
record IsOpen (messages : List Text) (w : PrefixWitness) : Type 0 where
  none_failed : w.first_failure_status_step ≡ none
  succeeded : w.success_prefix_messages ≡ w.replay_prefix_messages
  bounded : w.replay_prefix_messages ≤ length messages
  methods_size : length w.prefix_methods ≡ w.replay_prefix_messages
  previews_size : length w.prefix_response_previews ≡ w.replay_prefix_messages
  codes_size : length w.prefix_status_codes ≤ w.replay_prefix_messages

IsOpen-IsWitness :
    (messages : List Text) (n : ℕ) (w : PrefixWitness)
    → IsOpen messages w
    → w.replay_prefix_messages ≤ n
    → IsWitness messages n w
IsOpen-IsWitness messages n w h le = record {
  ends = all_succeed h.none_failed h.succeeded;
  within_messages = h.bounded;
  within_steps = le;
  methods = h.methods_size;
  previews = h.previews_size;
  codes = h.codes_size;
}

length-code_list : (code : Option ℕ) → length (code_list code) ≤ 1
unfolding code_list
length-code_list none = omega arith
length-code_list (some c) = omega arith

stops_at-inside :
    (messages : List Text) (step : Step) (default_idx replayed : ℕ)
    → stops_at step default_idx replayed messages ≡ false
    → suc replayed ≤ length messages
unfolding stops_at
stops_at-inside messages step default_idx replayed h = ground arith

-- A step that is counted.
counted-IsOpen :
    (messages : List Text) (step : Step) (default_idx : ℕ) (w : PrefixWitness)
    → IsOpen messages w
    → stops_at step default_idx w.replay_prefix_messages messages ≡ false
    → let c = count_step step messages w in
      (length c.prefix_methods ≡ c.replay_prefix_messages)
      × (length c.prefix_response_previews ≡ c.replay_prefix_messages)
      × (length c.prefix_status_codes ≤ c.replay_prefix_messages)
      × (c.replay_prefix_messages ≤ length messages)
unfolding count_step
counted-IsOpen messages step default_idx w h e =
    let codes = code_list (response_status_code (strip step.response_preview)) in
    let size = length-code_list (response_status_code (strip step.response_preview)) in
    let inside = stops_at-inside messages step default_idx w.replay_prefix_messages e in
    (
      omega (arith, length-append w.prefix_methods (_ ∷ []), h.methods_size),
      omega (arith, length-append w.prefix_response_previews (_ ∷ []), h.previews_size),
      omega (arith, length-append w.prefix_status_codes codes, size, h.codes_size),
      omega (arith, inside),
    )

witness_loop-IsWitness :
    (messages : List Text) (default_idx : ℕ) (steps : List (Option Step)) (w : PrefixWitness)
    (n : ℕ)
    → IsOpen messages w
    → w.replay_prefix_messages + length steps ≤ n
    → IsWitness messages n (witness_loop messages default_idx steps w)
unfolding witness_loop
witness_loop-IsWitness messages default_idx [] w n h le =
    IsOpen-IsWitness messages n w h (omega (arith, le))
witness_loop-IsWitness messages default_idx (none ∷ steps) w n h le =
    IsOpen-IsWitness messages n w h (omega (arith, le))
witness_loop-IsWitness messages default_idx (some step ∷ steps) w n h le =
    elim (Bool-cases (stops_at step default_idx w.replay_prefix_messages messages)) [
      | inl e ↦ rw (witness_loop, e) (IsOpen-IsWitness messages n w h (omega (arith, le)))
      | inr e ↦
          let (m, p, c, inside) = counted-IsOpen messages step default_idx w h e in
          elim (Bool-cases (is_failure (response_status_code (strip step.response_preview)))) [
            | inl f ↦
                rw (witness_loop, e, f)
                  (record {
                    ends =
                        last_fails (ap (λ (i : ℕ). some i) (sym h.succeeded))
                          (omega (arith, h.succeeded));
                    within_messages = inside;
                    within_steps = omega (arith, le);
                    methods = m;
                    previews = p;
                    codes = c;
                  })
            | inr f ↦
                rw (witness_loop, e, f)
                  (witness_loop-IsWitness messages (suc default_idx) steps _ n
                    (record {
                      none_failed = h.none_failed;
                      succeeded = refl;
                      bounded = inside;
                      methods_size = m;
                      previews_size = p;
                      codes_size = c;
                    })
                    (omega (arith, le)))
          ]
    ]

-- Of a trace `_extract_success_prefix_witness` counts no more messages than the seed and the trace
-- have; either all that were replayed succeeded, or all but the last, which is the step of the
-- failure; there is a method and a preview for each, and no more status codes than messages.
pub extract_success_prefix_witness-IsWitness :
    (steps : List (Option Step)) (messages : List Text)
    → IsWitness messages (length steps) (extract_success_prefix_witness steps messages)
unfolding extract_success_prefix_witness
extract_success_prefix_witness-IsWitness steps messages =
    witness_loop-IsWitness messages 0 steps no_witness (length steps)
      (record {
        none_failed = refl;
        succeeded = refl;
        bounded = omega arith;
        methods_size = refl;
        previews_size = refl;
        codes_size = omega arith;
      })
      (omega arith)
