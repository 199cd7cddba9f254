-- ===== src/Executor.antt =====
-- python/S2AFL/runtime/mutation_executor.py: the numbers and values of a mutation plan. `int(raw)` is
-- the integer, or `none` where it raises TypeError or ValueError.
pub mod Values
pub mod Requests
pub mod Lines
pub mod Prefix
use s2afl.Prelude.{
  ℕ, zero, suc, ◌+◌, ◌-◌, ◌*◌, ◌/◌, Bool, true, false, not, ◌&&◌, ◌||◌, Option, none, some, List,
  [], ◌∷◌, ◌++◌, Text, ltb, leb, ◌==◌, if◌then◌else◌, length, take, drop, any, all, join, replicate,
  min, max, ℤ, pos, negsuc, clamp,
}
use s2afl.Text.{is_space}

-- (pattern * k)[:n]
abbrev repeat : ℕ → Text → Text
repeat k pattern = join (replicate k pattern)

is_control : ℕ → Bool
is_control c = c == 13 || c == 10 || c == 0

-- original or "A"; "A" too where the text has only whitespace.
stretch_pattern : Text → Text
unfolding is_space
stretch_pattern original = if all is_space original then b'A' ∷ [] else original

-- max(0, i), and max(0, min(i, m)).
abbrev int_to_nat : ℤ → ℕ
int_to_nat (pos n) = n
int_to_nat (negsuc n) = 0

abbrev min_to_nat : ℤ → ℕ → ℕ
min_to_nat (pos n) m = min n m
min_to_nat (negsuc n) m = 0

-- _stretch_value
unfoldable pub stretch_value : Text → ℤ → Option ℕ → Text
unfolding is_control stretch_pattern
stretch_value original size max_length =
    let n : ℕ = elim max_length [ none ↦ int_to_nat size | some m ↦ min_to_nat size m ] in
    let pattern = stretch_pattern original in
    if n == 0
    then []
    else if any is_control original
    then replicate n b'A'
    else take n (repeat (n / length pattern + 2) pattern)

-- _clip_mutated_value
unfoldable pub clip_mutated_value : Text → ℕ → Text
clip_mutated_value value max_length =
    if leb (length value) max_length then value else take max_length value

-- _inject_value
unfoldable pub inject_value : Text → Text → Text
inject_value [] payload = payload
inject_value (c ∷ original) payload =
    let mid = length (c ∷ original) / 2 in
    take mid (c ∷ original) ++ payload ++ drop mid (c ∷ original)

-- _max_mutated_value_length: int(configured or 2048), 2048 where that raises.
unfoldable pub max_mutated_value_length : Option ℤ → ℕ
max_mutated_value_length none = 2048
max_mutated_value_length (some (pos n)) = max 64 (if n == 0 then 2048 else n)
max_mutated_value_length (some (negsuc n)) = 64

-- _max_sequence_seed_bytes
unfoldable pub max_sequence_seed_bytes : Option ℤ → ℕ
max_sequence_seed_bytes none = 32768
max_sequence_seed_bytes (some (pos n)) = max 2048 (min 65536 (if n == 0 then 32768 else n))
max_sequence_seed_bytes (some (negsuc n)) = 2048

-- The loop of `_sequence_repeat_counts`.
repeat_counts : List (Option ℤ) → List ℕ → List ℕ
repeat_counts [] counts = counts
repeat_counts (none ∷ values) counts = repeat_counts values counts
repeat_counts (some i ∷ values) counts =
    let count = clamp 2 32 i in
    repeat_counts values (if any (λ k. count == k) counts then counts else counts ++ count ∷ [])

-- _sequence_repeat_counts; no list is [].
unfoldable pub sequence_repeat_counts : List (Option ℤ) → List ℕ
unfolding repeat_counts
sequence_repeat_counts values = elim (repeat_counts (take 4 values) []) [
  | [] ↦ 2 ∷ 4 ∷ 8 ∷ []
  | n ∷ counts ↦ n ∷ counts
]

-- _resolve_target_message_index: max(0, min(message_count - 1, idx)), where idx is the plan's number or
-- else the step index of the context.
unfoldable pub resolve_target_message_index : Option ℤ → ℤ → ℕ → ℕ
resolve_target_message_index planned step_index message_count = elim planned [
  | none ↦ clamp 0 (message_count - 1) step_index
  | some i ↦ clamp 0 (message_count - 1) i
]
