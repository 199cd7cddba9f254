-- ===== src/Replay/Witness.antt =====
-- `_extract_success_prefix_witness` and `_response_status_code`.
pub mod Prefix
pub mod Traces
use s2afl.Prelude.{
  ℕ, zero, suc, ◌+◌, ◌-◌, ◌*◌, Bool, true, false, not, ◌&&◌, ◌||◌, Option, none, some, List, [],
  ◌∷◌, ◌++◌, Text, ltb, leb, ◌==◌, if◌then◌else◌, length, take, get_elem?, ℤ, pos, negsuc,
}
use s2afl.Text.{is_space, strip}
use s2afl.Seed.{message_method}

abbrev is_word : ℕ → Bool
is_word c =
    leb b'0' c && leb c b'9' || leb b'A' c && leb c b'Z' || leb b'a' c && leb c b'z' || c == b'_'

-- [1-5]\d{2}\b at one place.
status_at : Text → Option ℕ
status_at (a ∷ b ∷ c ∷ s) =
    if leb b'1' a
      && leb a b'5'
      && leb b'0' b
      && leb b b'9'
      && leb b'0' c
      && leb c b'9'
      && elim s [ [] ↦ true | d ∷ t ↦ not (is_word d) ]
    then some ((a - b'0') * 100 + (b - b'0') * 10 + (c - b'0'))
    else none
status_at _ = none

-- The first match; the flag says whether a word character stands before.
status_from : Bool → Text → Option ℕ
unfolding status_at
status_from in_word [] = none
status_from in_word (c ∷ s) =
    let rest = status_from (is_word c) s in
    elim (if in_word then none else status_at (c ∷ s)) [ some code ↦ some code | none ↦ rest ]

-- _response_status_code; a match is a number from 100 to 599.
unfoldable pub response_status_code : Text → Option ℕ
unfolding status_from
response_status_code text = status_from false text

-- re.sub(r"\s+", " ", s): the flag says whether the character before is whitespace.
squeeze : Bool → Text → Text
unfolding is_space
squeeze after_space [] = []
squeeze after_space (c ∷ s) =
    let rest = squeeze (is_space c) s in
    if is_space c then (if after_space then rest else 32 ∷ rest) else c ∷ rest

-- message_preview
unfoldable pub message_preview : Text → Text
unfolding squeeze strip
message_preview message = take 120 (squeeze false (strip message))

-- A step of the trace. A missing text is empty, a missing number 0.
pub record Step : Type 0 where
  pub step_index : ℕ
  pub send_error : Text
  pub response_error : Text
  pub capture_returncode : ℤ
  pub has_capture_error : Bool
  pub response_preview : Text
  pub method : Text

pub record PrefixWitness : Type 0 where
  pub replay_prefix_messages : ℕ
  pub success_prefix_messages : ℕ
  pub first_failure_status_step : Option ℕ
  pub prefix_methods : List Text
  pub prefix_status_codes : List ℕ
  pub prefix_response_previews : List Text

unfoldable pub or_text : Text → Text → Text
or_text [] t = t
or_text (c ∷ s) t = c ∷ s

unfoldable pub is_zero : ℤ → Bool
is_zero (pos n) = n == 0
is_zero (negsuc n) = false

-- Whether the loop breaks before it counts the step.
unfoldable pub stops_at : Step → ℕ → ℕ → List Text → Bool
unfolding or_text strip is_zero
stops_at step default_idx replayed messages =
    let step_index = if step.step_index == 0 then default_idx else step.step_index in
    not (step_index == replayed)
    || leb (length messages) step_index
    || not (length (strip (or_text step.send_error step.response_error)) == 0)
    || not (is_zero step.capture_returncode)
    || step.has_capture_error
    || length (strip step.response_preview) == 0

code_list : Option ℕ → List ℕ
code_list none = []
code_list (some code) = code ∷ []

unfoldable pub is_failure : Option ℕ → Bool
is_failure none = false
is_failure (some code) = leb 400 code

-- What the step adds to the three lists and to the count.
unfoldable pub count_step : Step → List Text → PrefixWitness → PrefixWitness
unfolding or_text message_method response_status_code code_list message_preview strip
count_step step messages w =
    let preview = strip step.response_preview in
    let message : Text = elim (get_elem? messages w.replay_prefix_messages) [
      | none ↦ []
      | some m ↦ m
    ] in
    record w {
      replay_prefix_messages = suc w.replay_prefix_messages;
      prefix_methods = w.prefix_methods ++ or_text step.method (message_method message) ∷ [];
      prefix_status_codes = w.prefix_status_codes ++ code_list (response_status_code preview);
      prefix_response_previews = w.prefix_response_previews ++ message_preview preview ∷ [];
    }

-- The loop on the steps; a step that is no dict is `none`.
unfoldable pub witness_loop : List Text → ℕ → List (Option Step) → PrefixWitness → PrefixWitness
unfolding stops_at count_step is_failure response_status_code strip
witness_loop messages default_idx [] w = w
witness_loop messages default_idx (none ∷ steps) w = w
witness_loop messages default_idx (some step ∷ steps) w =
    elim (stops_at step default_idx w.replay_prefix_messages messages) [
      | true ↦ w
      | false ↦
          let counted = count_step step messages w in
          elim (is_failure (response_status_code (strip step.response_preview))) [
            | true ↦ record counted { first_failure_status_step = some w.replay_prefix_messages }
            | false ↦
                witness_loop messages (suc default_idx) steps
                  (record counted { success_prefix_messages = counted.replay_prefix_messages })
          ]
    ]

abbrev pub no_witness : PrefixWitness
no_witness = record {
  replay_prefix_messages = 0;
  success_prefix_messages = 0;
  first_failure_status_step = none;
  prefix_methods = [];
  prefix_status_codes = [];
  prefix_response_previews = [];
}

-- _extract_success_prefix_witness
unfoldable pub extract_success_prefix_witness : List (Option Step) → List Text → PrefixWitness
unfolding witness_loop
extract_success_prefix_witness steps messages = witness_loop messages 0 steps no_witness
